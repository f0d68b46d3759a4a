-- ===== src/Samples/Lines.antt =====
-- The theorems on ignition and on the guards at concrete lines.
use fleet_graph.Common.{
  Option, String, [], arith, eqb, false, if◌then◌else◌, none, refl, some, true, ◌↔◌, ◌∷◌, ◌≡◌,
}
use fleet_graph.Common.Dict.{lookup}
use fleet_graph.Graphs.Guards.{
  LineGuards, Text, accept_prompt, bigrams_of, check_prompt, default_bounds, injectable, strip,
}
use fleet_graph.Graphs.Guards.Similarity.{check_prompt-respaced}
use fleet_graph.Scheduler.Ignition.{
  Facts, LineStatus, decide, default_backoff_cap_seconds, default_cooldown_seconds,
  default_total_cap,
}
use fleet_graph.Scheduler.Ignition.Gates.{Open, Rested, decide-wakes, decide_iff}

abbrev stopped_line : LineStatus
stopped_line = record {
  folder_id = "line-1";
  seat = "seat-1";
  running = false;
  terminal = some "blocked";
  last_start_at = some 1000;
}

abbrev stuck : Facts
stuck = record {
  now = 30000;
  enabled = true;
  maintenance_stop = false;
  gateway_healthy = some true;
  unproductive_recent = 3;
  zero_progress_streak = 9;
  parked = false;
  parked_kind = "decision";
  cooldown_seconds = default_cooldown_seconds;
  total_cap = default_total_cap;
  backoff_cap_seconds = default_backoff_cap_seconds;
  revived = false;
  acceptance_digest_pinned = some "sha";
  acceptance_digest_current = none;
}

decide_iff_example :
    ((decide stopped_line stuck).ignite ≡ true)
    ↔ (Open stopped_line stuck × Rested stopped_line stuck)
decide_iff_example = decide_iff stopped_line stuck

Open-line : Open stopped_line stuck
Open-line = record {
  enabled = refl;
  unstopped = refl;
  idle = refl;
  unlatched = λ e. cc;
  unparked = refl;
  same_digest = λ p c e f. cc;
  below_cap = omega arith;
  healthy = refl;
}

decide-wakes_example : (decide stopped_line stuck).ignite ≡ true
decide-wakes_example =
    decide-wakes stopped_line stuck Open-line (omega arith) (λ last e. ground arith)

abbrev said_before : Text
said_before = 97 ∷ 98 ∷ 32 ∷ 99 ∷ []

abbrev respaced : Text
respaced = 97 ∷ 32 ∷ 98 ∷ 99 ∷ []

abbrev line : LineGuards
line = record {
  bounds = default_bounds;
  prompts_seen = [];
  prev_prompt = some said_before;
  noop_streak = 1;
  timeout_streak = 0;
}

abbrev first_digest : Text → String
first_digest text = elim text [ [] ↦ "" | c ∷ cs ↦ if eqb c 97 then "a" else "other" ]

same_stripped : strip said_before ≡ strip respaced
unfolding strip
same_stripped = refl

check_prompt-respaced_example : injectable (check_prompt first_digest line respaced) ≡ false
check_prompt-respaced_example =
    check_prompt-respaced first_digest line said_before respaced refl same_stripped (omega arith)

abbrev new_prompt : Text
new_prompt = 120 ∷ 121 ∷ 122 ∷ []

abbrev guards_of : Option LineGuards → LineGuards
guards_of (some g) = g
guards_of none = line

abbrev left_by : LineGuards
left_by = guards_of (accept_prompt line (check_prompt first_digest line new_prompt) new_prompt 4)

accepts_new :
    accept_prompt line (check_prompt first_digest line new_prompt) new_prompt 4 ≡ some left_by
unfolding accept_prompt check_prompt lookup strip bigrams_of
accepts_new = refl
