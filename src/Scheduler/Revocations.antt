-- ===== src/Scheduler/Revocations.antt =====
-- The revocations over the ticks of one line: `_revive_outcome` and `tick` of scheduler/daemon.py.
-- Whether a tick applied a revocation.
use fleet_graph.Common.{
  Bool, Bool-cases, List, Option, Result, [], ap, arith, err, false, if◌then◌else◌, inl, inr,
  is_some, none, ok, refl, some, subst, sym, true, ℕ, ◌+◌, ◌∙◌, ◌∷◌, ◌≡◌, ◌≤◌, ◌⊎◌,
}
use fleet_graph.Common.Text.{codes}
use fleet_graph.Graphs.Guards.{Text}
use fleet_graph.Scheduler.Ignition.{IgnitionDecision, decide}
use fleet_graph.Scheduler.Parking.{LineSpec, Parked, left, no_park}
use fleet_graph.Scheduler.Reading.{Config, Line, Moment, current_done_generation, terminal_record}
use fleet_graph.Scheduler.Revive.{ReviveError, ReviveRecord, ReviveStore, consume, get}
use fleet_graph.Scheduler.Revoking.{Cleared, consume-Cleared, taken_of}
use fleet_graph.Scheduler.Stall.{StallFile, account_last_run}
use fleet_graph.Scheduler.Tick.{
  TickResult, after_revival, applied, facts_of, gated, if_enabled, ignite_on, revive_matching,
  revive_outcome, same_generation, status_of, tick_line,
}
use fleet_graph.Scheduler.Waking.{park_state}

abbrev pub took : Result ReviveError TickResult → Bool
took (err e) = false
took (ok t) = is_some t.revoked

abbrev pub key_of : LineSpec → Text
key_of line = codes line.folder_id

-- What holds of the surface after a tick, and of whether a revocation took effect in it.
abbrev Outcome :
    (ReviveStore → Bool → Type 0) → Line × Result ReviveError (Option ReviveRecord) → Type 0
Outcome P (s, answer) = P s.revives (taken_of answer)

is_some-taken : (o : Option ReviveRecord) → is_some o ≡ taken_of (ok o)
is_some-taken none = refl
is_some-taken (some r) = refl

ignite_on-revives :
    (config : Config) (m : Moment) (line : LineSpec) (streak : ℕ) (park : Parked)
    (revoked : Option ReviveRecord) (s : Line) (decision : IgnitionDecision)
    → ((ignite_on config m line streak park revoked s decision).0.revives ≡ s.revives)
      × ((ignite_on config m line streak park revoked s decision).1.revoked ≡ revoked)
unfolding ignite_on
ignite_on-revives config m line streak park revoked s decision = elim (Bool-cases decision.ignite) [
  | inl h ↦ rw h (refl, refl)
  | inr h ↦ rw h (refl, refl)
]

moved :
    (P : ReviveStore → Bool → Type 0) (before_ after_ : ReviveStore) (o told : Option ReviveRecord)
    → after_ ≡ before_
    → told ≡ o
    → P before_ (is_some o)
    → P after_ (is_some told)
moved P before_ after_ o told e f h =
    subst (λ b. P b (is_some told)) (sym e) (subst (λ t. P before_ (is_some t)) (sym f) h)

module _ (config : Config) (m : Moment) (line : LineSpec) (P : ReviveStore → Bool → Type 0) where
  revival-lift :
      (streak : ℕ) (park : Parked) (p : Line × Result ReviveError (Option ReviveRecord))
      → Outcome P p
      → P
          (after_revival config m line streak park p).0.revives
          (took (after_revival config m line streak park p).1)
  unfolding after_revival
  revival-lift streak park (s, err e) h = h
  revival-lift streak park (s, ok revoked) h =
      let (same, told) = ignite_on-revives config m line streak park revoked s (
        gated m (terminal_record m line s.file) (
          decide (status_of m line s)
            (facts_of config m line streak park.outcome (is_some revoked) s))) in
      moved P s.revives _ revoked _ same told (subst (P s.revives) (sym (is_some-taken revoked)) h)

  enabled-lift :
      (s : Line) (file : StallFile) (streak : ℕ) (b : Bool)
      → ((t : Line) → t.revives ≡ s.revives → Outcome P (revive_outcome m line t))
      → P s.revives false
      → P
          (if_enabled config m line s file streak b).0.revives
          (took (if_enabled config m line s file streak b).1)
  enabled-lift s file streak true each idle =
      let park = park_state m.world line (terminal_record m line file) file in
      revival-lift streak park (revive_outcome m line (record s { file = park.file }))
        (each (record s { file = park.file }) refl)
  enabled-lift s file streak false each idle =
      revival-lift streak (left file (no_park none)) (record s { file = file }, ok none) idle

  -- What holds after the revival from any state with the same surface holds after the tick.
  pub tick-lift :
      (s : Line)
      → ((t : Line) → t.revives ≡ s.revives → Outcome P (revive_outcome m line t))
      → P s.revives false
      → P (tick_line config m line s).0.revives (took (tick_line config m line s).1)
  unfolding tick_line
  tick-lift s each idle =
      let counted =
        account_last_run m.accounting_writes line.generation (terminal_record m line s.file)
          s.file in
      enabled-lift s counted.0 counted.1 line.enabled each idle

-- Nothing took effect, or nothing is left to take effect.
abbrev Spent : Text → ReviveStore → Bool → Type 0
Spent key store taken = (taken ≡ false) ⊎ (get key store ≡ none)

applied-Spent :
    (m : Moment) (line : LineSpec) (r : ReviveRecord) (s : Line)
    (p : ReviveStore × Result ReviveError (Option ReviveRecord))
    → Cleared (key_of line) p
    → Outcome (Spent (key_of line)) (applied m line r s p)
applied-Spent m line r s (store, err e) h = inl refl
applied-Spent m line r s (store, ok taken) h = inr h

matching-Spent :
    (m : Moment) (line : LineSpec) (found : Option ReviveRecord) (s : Line)
    → get (key_of line) s.revives ≡ found
    → Outcome (Spent (key_of line)) (revive_matching m line found s)
matching-Spent m line none s e = inl refl
matching-Spent m line (some r) s e =
    elim (Bool-cases (same_generation r.generation (current_done_generation m line s.file))) [
      | inl h ↦ rw h (
          applied-Spent m line r s
            (consume m.revive_writes m.history_writes (key_of line) s.revives)
            (consume-Cleared m.revive_writes m.history_writes (key_of line) r s.revives e))
      | inr h ↦ rw h (inl refl)
    ]

revive-Spent :
    (m : Moment) (line : LineSpec) (s : Line)
    → Outcome (Spent (key_of line)) (revive_outcome m line s)
unfolding revive_outcome
revive-Spent m line s = matching-Spent m line (get (key_of line) s.revives) s refl

-- Where no record stands, none takes effect, and none comes.
abbrev pub Idle : Text → ReviveStore → Bool → Type 0
Idle key store taken = (get key store ≡ none) × (taken ≡ false)

revive-Idle :
    (m : Moment) (line : LineSpec) (s : Line)
    → get (key_of line) s.revives ≡ none
    → Outcome (Idle (key_of line)) (revive_outcome m line s)
unfolding revive_outcome
revive-Idle m line s e =
    subst (λ o. Outcome (Idle (key_of line)) (revive_matching m line o s)) (sym e) (e, refl)

pub tick-Idle :
    (config : Config) (m : Moment) (line : LineSpec) (s : Line)
    → get (key_of line) s.revives ≡ none
    → Idle (key_of line) (tick_line config m line s).0.revives (took (tick_line config m line s).1)
tick-Idle config m line s e =
    tick-lift config m line (Idle (key_of line)) s
      (λ t same. revive-Idle m line t (ap (get (key_of line)) same ∙ e)) (e, refl)

tick-Spent :
    (config : Config) (m : Moment) (line : LineSpec) (s : Line)
    → Spent (key_of line) (tick_line config m line s).0.revives (took (tick_line config m line s).1)
tick-Spent config m line s =
    tick-lift config m line (Spent (key_of line)) s (λ t same. revive-Spent m line t) (inl refl)

pub took-gone :
    (config : Config) (m : Moment) (line : LineSpec) (s : Line)
    → took (tick_line config m line s).1 ≡ true
    → get (key_of line) (tick_line config m line s).0.revives ≡ none
took-gone config m line s taken = elim (tick-Spent config m line s) [ inl h ↦ cc | inr h ↦ h ]

-- The ticks of a line in which a revocation took effect, where nobody writes another.
abbrev pub revocations : Config → List Moment → LineSpec → Line → ℕ
revocations config [] line s = 0
revocations config (m ∷ ms) line s =
    let (later, result) = tick_line config m line s in
    let rest = revocations config ms line later in if took result then rest + 1 else rest

Idle-revocations :
    (config : Config) (ms : List Moment) (line : LineSpec) (s : Line)
    → get (key_of line) s.revives ≡ none
    → revocations config ms line s ≡ 0
Idle-revocations config [] line s e = refl
Idle-revocations config (m ∷ ms) line s e =
    let (left_over, not_taken) = tick-Idle config m line s e in
    rw not_taken (Idle-revocations config ms line (tick_line config m line s).0 left_over)

-- Over any ticks of a line between which nobody writes a revocation, whatever fails, at most
-- one applies a revocation.
pub revocations-once :
    (config : Config) (ms : List Moment) (line : LineSpec) (s : Line)
    → revocations config ms line s ≤ 1
revocations-once config [] line s = omega arith
revocations-once config (m ∷ ms) line s = elim (tick-Spent config m line s) [
  | inl h ↦ rw h (revocations-once config ms line (tick_line config m line s).0)
  | inr h ↦ ground (arith, Idle-revocations config ms line (tick_line config m line s).0 h)
]
