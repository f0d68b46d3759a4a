-- ===== src/Graphs/Guards/Stopping.antt =====
-- A line that makes no progress stops: graphs/guards.py, INV-8 and the streaks.
use fleet_graph.Common.{
  Bool, List, Option, [], any, arith, false, none, refl, some, subst, true, ℕ, ◌+◌, ◌↔◌, ◌∷◌, ◌≡◌,
  ◌≤◌,
}
use fleet_graph.Graphs.Guards.{
  LineGuards, StopReason, bounds_exceeded, deadline_past, record_noop, record_progress,
  record_timeout, record_turn_ok, streak_exceeded,
}

-- What a round does to the streaks.
pub data RoundEvent : Type 0 where
  progress noop turn_ok timeout : RoundEvent

abbrev pub record_event : LineGuards → RoundEvent → LineGuards
record_event g RoundEvent.progress = record_progress g
record_event g RoundEvent.noop = record_noop g
record_event g RoundEvent.turn_ok = record_turn_ok g
record_event g RoundEvent.timeout = record_timeout g

abbrev pub record_events : LineGuards → List RoundEvent → LineGuards
record_events g [] = g
record_events g (e ∷ es) = record_events (record_event g e) es

abbrev pub is_progress : RoundEvent → Bool
is_progress RoundEvent.progress = true
is_progress _ = false

abbrev pub noops_in : List RoundEvent → ℕ
noops_in [] = 0
noops_in (RoundEvent.noop ∷ es) = noops_in es + 1
noops_in (_ ∷ es) = noops_in es

grown :
    (g : LineGuards) (es : List RoundEvent)
    → any is_progress es ≡ false
    → (record_events g es).noop_streak ≡ g.noop_streak + noops_in es
grown g [] h = omega arith
grown g (RoundEvent.progress ∷ es) h = cc
grown g (RoundEvent.noop ∷ es) h = omega (arith, grown (record_noop g) es h)
grown g (RoundEvent.turn_ok ∷ es) h = omega (arith, grown (record_turn_ok g) es h)
grown g (RoundEvent.timeout ∷ es) h = omega (arith, grown (record_timeout g) es h)

same_bounds : (g : LineGuards) (es : List RoundEvent) → (record_events g es).bounds ≡ g.bounds
same_bounds g [] = refl
same_bounds g (RoundEvent.progress ∷ es) = same_bounds (record_progress g) es
same_bounds g (RoundEvent.noop ∷ es) = same_bounds (record_noop g) es
same_bounds g (RoundEvent.turn_ok ∷ es) = same_bounds (record_turn_ok g) es
same_bounds g (RoundEvent.timeout ∷ es) = same_bounds (record_timeout g) es

stops_at :
    (g : LineGuards)
    → g.bounds.noop_limit ≤ g.noop_streak
    → streak_exceeded g ≡ some (StopReason.noops g.noop_streak)
unfolding streak_exceeded
stops_at g h = ground arith

-- However worker turns succeed or time out in between, a line stops for lack of progress once the
-- rounds without progress since the last progress reach the limit; the reason counts them.
pub noops-stop :
    (g : LineGuards) (es : List RoundEvent)
    → any is_progress es ≡ false
    → g.bounds.noop_limit ≤ g.noop_streak + noops_in es
    → streak_exceeded (record_events g es) ≡ some (StopReason.noops (g.noop_streak + noops_in es))
noops-stop g es h l =
    let e = grown g es h in
    subst (λ n. streak_exceeded (record_events g es) ≡ some (StopReason.noops n)) e
      (stops_at (record_events g es) (rw (same_bounds g es, e) l))

deadline_past-false :
    (a b : Option ℕ) → (deadline_past a b ≡ false) ↔ ((d t : ℕ) → a ≡ some d → b ≡ some t → t ≤ d)
deadline_past-false none b = ((λ h d t e f. cc), λ h. refl)
deadline_past-false (some d) none = ((λ h x t e f. cc), λ h. refl)
deadline_past-false (some d) (some t) =
    ((λ h x y e f. ground arith), λ h. ground (arith, h d t refl refl))

-- A round goes on exactly when it is within the bound on rounds and no deadline has passed.
pub bounds_exceeded-none :
    (g : LineGuards) (round_no : ℕ) (now : Option ℕ)
    → (bounds_exceeded g round_no now ≡ none) ↔ (
        (round_no ≤ g.bounds.max_rounds)
        × ((deadline t : ℕ) → g.bounds.deadline_at ≡ some deadline → now ≡ some t → t ≤ deadline))
unfolding bounds_exceeded
bounds_exceeded-none g round_no now =
    let (f, b) = deadline_past-false g.bounds.deadline_at now in
    ((λ h. (ground arith, f (ground arith))), λ (r, d). ground (arith, b d))
