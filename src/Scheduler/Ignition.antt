-- ===== src/Scheduler/Ignition.antt =====
-- Whether a line may be started now: scheduler/ignition.py. Times are whole seconds. Of a refusal's
-- detail text only the seconds that are left to wait are kept.
pub mod Gates
use fleet_graph.Common.{
  Bool, Option, String, eqb, false, if◌then◌else◌, leb, ltb, min, none, not, some, true, ℕ, ◌&&◌,
  ◌*◌, ◌+◌, ◌-◌, ◌==◌, ◌^◌,
}

pub data Refusal : Type 0 where
  line_disabled no_progress maintenance_stop already_running terminal_done : Refusal
  parked_awaiting_decision parked_awaiting_dd cooling_down total_cap_reached : Refusal
  gateway_red no_probe pending_default_branch acceptance_digest_mismatch : Refusal

abbrev pub default_cooldown_seconds : ℕ
default_cooldown_seconds = 300

abbrev pub default_total_cap : ℕ
default_total_cap = 60

abbrev pub default_backoff_cap_seconds : ℕ
default_backoff_cap_seconds = 6 * 3600

-- The cooldown, doubled for each run of the streak and capped.
unfoldable pub backoff_seconds : ℕ → ℕ → ℕ → ℕ
backoff_seconds base zero_progress_streak cap =
    if eqb zero_progress_streak 0 then base else min (base * 2 ^ zero_progress_streak) cap

pub record LineStatus : Type 0 where
  pub folder_id : String
  pub seat : String
  pub running : Bool
  pub terminal : Option String
  pub last_start_at : Option ℕ

-- The keyword arguments of `decide`.
pub record Facts : Type 0 where
  pub now : ℕ
  pub enabled : Bool
  pub maintenance_stop : Bool
  pub gateway_healthy : Option Bool
  pub unproductive_recent : ℕ
  pub zero_progress_streak : ℕ
  pub parked : Bool
  pub parked_kind : String
  pub cooldown_seconds : ℕ
  pub total_cap : ℕ
  pub backoff_cap_seconds : ℕ
  pub revived : Bool
  pub acceptance_digest_pinned : Option String
  pub acceptance_digest_current : Option String

pub record IgnitionDecision : Type 0 where
  pub ignite : Bool
  pub refusal : Option Refusal
  pub remaining : ℕ

abbrev pub refuse : Refusal → IgnitionDecision
refuse r = record { ignite = false; refusal = some r; remaining = 0 }

abbrev pub refuse_for : Refusal → ℕ → IgnitionDecision
refuse_for r seconds = record { ignite = false; refusal = some r; remaining = seconds }

abbrev pub is_done : Option String → Bool
is_done none = false
is_done (some t) = t == "done"

-- Both digests are known and differ.
abbrev pub digests_differ : Option String → Option String → Bool
digests_differ (some pinned) (some current) = not (pinned == current)
digests_differ _ _ = false

-- The seconds left to wait, where the last start is too recent: `now - last < wait` in integers.
abbrev pub too_soon : Option ℕ → ℕ → ℕ → Option ℕ
too_soon none now wait = none
too_soon (some last) now wait = if ltb now (last + wait) then some (last + wait - now) else none

abbrev probed : Option Bool → IgnitionDecision
probed none = refuse Refusal.no_probe
probed (some false) = refuse Refusal.gateway_red
probed (some true) = record { ignite = true; refusal = none; remaining = 0 }

abbrev waited : Facts → Option ℕ → IgnitionDecision
waited f (some remaining) =
    if ltb 0 f.zero_progress_streak
    then refuse_for Refusal.no_progress remaining
    else refuse_for Refusal.cooling_down remaining
waited f none =
    if leb f.total_cap f.unproductive_recent
    then refuse Refusal.total_cap_reached
    else probed f.gateway_healthy

unfoldable pub decide : LineStatus → Facts → IgnitionDecision
unfolding backoff_seconds
decide status f =
    if not f.enabled
    then refuse Refusal.line_disabled
    else if f.maintenance_stop
    then refuse Refusal.maintenance_stop
    else if status.running
    then refuse Refusal.already_running
    else if is_done status.terminal && not f.revived
    then refuse Refusal.terminal_done
    else if f.parked
    then (if f.parked_kind == "dd"
        then refuse Refusal.parked_awaiting_dd
        else refuse Refusal.parked_awaiting_decision)
    else if digests_differ f.acceptance_digest_pinned f.acceptance_digest_current
    then refuse Refusal.acceptance_digest_mismatch
    else waited f (
        too_soon status.last_start_at f.now
          (backoff_seconds f.cooldown_seconds f.zero_progress_streak f.backoff_cap_seconds))
