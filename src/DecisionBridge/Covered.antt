-- ===== src/DecisionBridge/Covered.antt =====
-- The cursor of decision_bridge/bridge.py passes over no decision that is not sealed.
use fleet_graph.Common.{List, [], arith, err, ok, true, ℕ, ◌<◌, ◌∷◌, ◌≡◌, ◌≤◌}
use fleet_graph.DecisionBridge.{Message}
use fleet_graph.DecisionBridge.Bridge.{
  BridgeDeps, BridgeState, Processed, is_decision, process_message, process_page, unless_error,
}
use fleet_graph.DecisionBridge.Sealing.{Keeps, Progress, Sealed, process-Progress}

abbrev pub Page : Type 0
Page = List (BridgeDeps × Message)

-- A page of a channel: ascending, and beyond a position.
abbrev pub Ascending : ℕ → Page → Type 0
Ascending n [] = Unit
Ascending n ((deps, message) ∷ more) =
    (n < message.channel_seq) × Ascending message.channel_seq more

-- Every decision of the page at or before the cursor is sealed.
abbrev pub Covered : Page → BridgeState → Type 0
Covered [] b = Unit
Covered ((deps, message) ∷ more) b =
    (is_decision message ≡ true
      → message.channel_seq ≤ b.store.board_seq
      → Sealed message.message_id b)
    × Covered more b

-- Where the cursor is before the page, nothing is to be sealed.
before-Covered :
    (n : ℕ) (page : Page) (b : BridgeState)
    → Ascending n page
    → b.store.board_seq ≤ n
    → Covered page b
before-Covered n [] b up h = tt
before-Covered n ((deps, message) ∷ more) b (over, up) h = (
  λ d c. let bad : ⊥ = omega (arith, over, c, h) in elim bad [ ],
  before-Covered message.channel_seq more b up (omega (arith, over, h)),
)

-- What a page leaves: its decisions covered, and what was sealed before.
abbrev Left : Page → BridgeState → BridgeState → Type 0
Left page b later = Covered page later × Keeps b later

unless-Left :
    (deps : BridgeDeps) (message : Message) (more : Page) (n : ℕ) (b : BridgeState) (p : Processed)
    → n < message.channel_seq
    → b.store.board_seq ≤ n
    → Ascending message.channel_seq more
    → Progress message b p
    → ((later : BridgeState)
        → later.store.board_seq ≤ message.channel_seq
        → Left more later (process_page more later))
    → Left ((deps, message) ∷ more) b (unless_error p (process_page more))
unless-Left deps message more n b (later, ok done) over low up (bound, sealed, keeps) next =
    let (covered, kept) = next later (omega (arith, bound, over, low)) in
    ((λ d c. kept message.message_id (sealed d), covered), λ source s. kept source (keeps source s))
unless-Left deps message more n b (later, err e) over low up (same, keeps) next = (
  (
    λ d c. let bad : ⊥ = omega (arith, same, c, over, low) in elim bad [ ],
    before-Covered message.channel_seq more later up (omega (arith, same, over, low)),
  ),
  keeps,
)

page-Left :
    (n : ℕ) (page : Page) (b : BridgeState)
    → Ascending n page
    → b.store.board_seq ≤ n
    → Left page b (process_page page b)
unfolding process_page
page-Left n [] b up h = (tt, λ source s. s)
page-Left n ((deps, message) ∷ more) b (over, up) h =
    unless-Left deps message more n b (process_message deps message b) over h up
      (process-Progress deps message b)
      (λ later low. page-Left message.channel_seq more later up low)

-- After a page in ascending order beyond the cursor, whatever fails on the way, every decision
-- of the page at or before the cursor has a terminal receipt.
pub page-Covered :
    (page : Page) (b : BridgeState)
    → Ascending b.store.board_seq page
    → Covered page (process_page page b)
page-Covered page b up = (page-Left b.store.board_seq page b up (omega arith)).0
