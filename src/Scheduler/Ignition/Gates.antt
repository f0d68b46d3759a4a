-- ===== src/Scheduler/Ignition/Gates.antt =====
-- What the ignition decision of scheduler/ignition.py promises.
use fleet_graph.Common.{
  Option, String, ap, arith, eq_iff, false, leb, none, not, refl, some, suc, true, zero, ℕ, ◌&&◌,
  ◌*◌, ◌+◌, ◌<◌, ◌^◌, ◌↔◌, ◌≡◌, ◌≤◌,
}
use fleet_graph.Scheduler.Ignition.{
  Facts, LineStatus, backoff_seconds, decide, digests_differ, is_done, too_soon,
}

-- The wait that the streak asks for is over.
abbrev pub Rested : LineStatus → Facts → Type 0
Rested status f =
    (last : ℕ)
    → status.last_start_at ≡ some last
    → last + backoff_seconds f.cooldown_seconds f.zero_progress_streak f.backoff_cap_seconds ≤ f.now

-- The gates that do not turn on the clock.
pub record Open (status : LineStatus) (f : Facts) : Type 0 where
  pub enabled : f.enabled ≡ true
  pub unstopped : f.maintenance_stop ≡ false
  pub idle : status.running ≡ false
  pub unlatched : status.terminal ≡ some "done" → f.revived ≡ true
  pub unparked : f.parked ≡ false
  pub same_digest :
      (pinned current : String)
      → f.acceptance_digest_pinned ≡ some pinned
      → f.acceptance_digest_current ≡ some current
      → pinned ≡ current
  pub below_cap : f.unproductive_recent < f.total_cap
  pub healthy : f.gateway_healthy ≡ some true

digests_differ-false :
    (a b : Option String)
    → (digests_differ a b ≡ false) ↔ ((p c : String) → a ≡ some p → b ≡ some c → p ≡ c)
digests_differ-false none b = (λ h p c e. cc, λ h. refl)
digests_differ-false (some p) none = (λ h p c e f. cc, λ h. refl)
digests_differ-false (some p) (some c) =
    ((λ h q d e f. ground (arith, eq_iff p c)), (λ h. ground (arith, eq_iff p c, h p c refl refl)))

too_soon-none :
    (last : Option ℕ) (now wait : ℕ)
    → (too_soon last now wait ≡ none) ↔ ((l : ℕ) → last ≡ some l → l + wait ≤ now)
too_soon-none none now wait = (λ h l e. cc, λ h. refl)
too_soon-none (some l) now wait = ((λ h k e. ground arith), (λ h. ground (arith, h l refl)))

is_done-true : (t : Option String) → (is_done t ≡ true) ↔ (t ≡ some "done")
is_done-true none = (λ h. cc, λ h. cc)
is_done-true (some t) =
    ((λ h. ap some ((eq_iff t "done").0 h)), (λ h. (eq_iff t "done").1 (ground arith)))

pow-pos : (n : ℕ) → 1 ≤ 2 ^ n
pow-pos zero = omega arith
pow-pos (suc n) = grind (arith, pow-pos n)

le-mul_pow : (base n : ℕ) → base ≤ base * 2 ^ n
le-mul_pow base n = grind (arith, pow-pos n)

-- The backoff never waits less than the cooldown and never more than the larger of the cooldown and
-- the cap.
pub backoff_seconds-bounds :
    (base streak cap : ℕ)
    → base ≤ cap
    → (base ≤ backoff_seconds base streak cap) × (backoff_seconds base streak cap ≤ cap)
unfolding backoff_seconds
backoff_seconds-bounds base streak cap h = ground (arith, le-mul_pow base streak)

abbrev wait_of : LineStatus → Facts → Option ℕ
wait_of status f =
    too_soon status.last_start_at f.now
      (backoff_seconds f.cooldown_seconds f.zero_progress_streak f.backoff_cap_seconds)

-- The tests of the code, when all of them pass.
record Tests (status : LineStatus) (f : Facts) : Type 0 where
  enabled : f.enabled ≡ true
  unstopped : f.maintenance_stop ≡ false
  idle : status.running ≡ false
  unlatched : (is_done status.terminal && not f.revived) ≡ false
  unparked : f.parked ≡ false
  same_digest : digests_differ f.acceptance_digest_pinned f.acceptance_digest_current ≡ false
  rested : wait_of status f ≡ none
  below_cap : leb f.total_cap f.unproductive_recent ≡ false
  healthy : f.gateway_healthy ≡ some true

decide-Tests : (status : LineStatus) (f : Facts) → (decide status f).ignite ≡ true → Tests status f
unfolding decide
decide-Tests status f h = record {
  enabled = ground arith;
  unstopped = ground arith;
  idle = ground arith;
  unlatched = ground arith;
  unparked = ground arith;
  same_digest = ground arith;
  rested = ground arith;
  below_cap = ground arith;
  healthy = ground arith;
}

Tests-decide : (status : LineStatus) (f : Facts) → Tests status f → (decide status f).ignite ≡ true
unfolding decide
Tests-decide status f t =
    rw
      (
        t.enabled, t.unstopped, t.idle, t.unlatched, t.unparked, t.same_digest, t.rested,
        t.below_cap, t.healthy,
      )
      refl

-- A line is started exactly when every gate is open and its wait is over.
pub decide_iff :
    (status : LineStatus) (f : Facts)
    → ((decide status f).ignite ≡ true) ↔ (Open status f × Rested status f)
decide_iff status f = (
  (λ h.
      let t = decide-Tests status f h in
      (
        record {
          enabled = t.enabled;
          unstopped = t.unstopped;
          idle = t.idle;
          unlatched = λ d. ground (arith, t.unlatched, (is_done-true status.terminal).1 d);
          unparked = t.unparked;
          same_digest = (digests_differ-false _ _).0 t.same_digest;
          below_cap = ground (arith, t.below_cap);
          healthy = t.healthy;
        },
        λ l e. (too_soon-none _ _ _).0 t.rested l e,
      )),
  (λ (o, r). Tests-decide status f (record {
    enabled = o.enabled;
    unstopped = o.unstopped;
    idle = o.idle;
    unlatched = ground (arith, is_done-true status.terminal, o.unlatched);
    unparked = o.unparked;
    same_digest = (digests_differ-false _ _).1 o.same_digest;
    rested = (too_soon-none _ _ _).1 r;
    below_cap = ground (arith, o.below_cap);
    healthy = o.healthy;
  })),
)

-- Where a line's other gates are open and its cooldown is at most the cap, it starts at the latest
-- once the cap has passed since its last start, however long its streak: the backoff never locks a
-- line shut.
pub decide-wakes :
    (status : LineStatus) (f : Facts)
    → Open status f
    → f.cooldown_seconds ≤ f.backoff_cap_seconds
    → ((last : ℕ) → status.last_start_at ≡ some last → last + f.backoff_cap_seconds ≤ f.now)
    → (decide status f).ignite ≡ true
decide-wakes status f o c late = (decide_iff status f).1 (
  o,
  λ last e. omega (
    arith,
    late last e,
    (backoff_seconds-bounds f.cooldown_seconds f.zero_progress_streak f.backoff_cap_seconds c).1,
  ),
)
