-- ===== src/GoalLine/Verdict.antt =====
-- What a coordinator's verdict makes of a line: `_verdict_update` of graphs/goal_line.py with the
-- helpers it reads, and `normalize_waiting_on` of state/run_artifacts.py.
use fleet_graph.Common.{
  Bool, Bool-cases, Option, String, [], false, if◌then◌else◌, inl, inr, leb, none, not, refl, some,
  true, ℕ, ◌&&◌, ◌++◌, ◌+◌, ◌-◌, ◌||◌, ◌∷◌, ◌≡◌,
}
use fleet_graph.Common.Text.{codes, contains_part, lower}
use fleet_graph.GoalLine.{
  CoordinatorResult, Line, LineDeps, LineState, Reason, RoundRecord, Terminal, WaitingOn,
}
use fleet_graph.Graphs.Guards.{
  LineGuards, PromptCheck, Text, accept_prompt, check_prompt, injectable, is_space, record_noop,
  record_progress, text_eq,
}

-- text.strip()
abbrev trim_left : Text → Text
trim_left [] = []
trim_left (c ∷ cs) = let rest = trim_left cs in if is_space c then rest else c ∷ cs

abbrev pub is_nil : Text → Bool
is_nil [] = true
is_nil (c ∷ cs) = false

abbrev trim_right : Text → Text
trim_right [] = []
trim_right (c ∷ cs) = let rest = trim_right cs in if is_space c && is_nil rest then [] else c ∷ rest

unfoldable pub trim : Text → Text
trim text = trim_right (trim_left text)

trim_right-last :
    (text : Text) (d : ℕ)
    → is_space d ≡ false
    → (trim_right (text ++ d ∷ []) ≡ text ++ d ∷ []) × (is_nil (text ++ d ∷ []) ≡ false)
trim_right-last [] d h = (rw h refl, refl)
trim_right-last (c ∷ cs) d h =
    let (same, more) = trim_right-last cs d h in
    elim (Bool-cases (is_space c)) [
      | inl e ↦ (rw (same, e, more) refl, refl)
      | inr e ↦ (rw (same, e) refl, refl)
    ]

-- A text between two codes that are no white space is left as it is.
pub trim-framed :
    (c d : ℕ) (text : Text)
    → is_space c ≡ false
    → is_space d ≡ false
    → trim (c ∷ (text ++ d ∷ [])) ≡ c ∷ (text ++ d ∷ [])
unfolding trim
trim-framed c d text h k = rw h (trim_right-last (c ∷ text) d k).0

-- `str.upper` on the ASCII letters; the other code points stay.
unfoldable pub upper : Text → Text
upper [] = []
upper (c ∷ cs) = (if leb 97 c && leb c 122 then c - 32 else c) ∷ upper cs

abbrev pub is_text : String → Text → Bool
is_text word text = text_eq text (codes word)

abbrev pub verdict_of : CoordinatorResult → Text
verdict_of result = lower (trim result.verdict)

abbrev recovery : Text
recovery = 24674 ∷ 22797 ∷ []

abbrev verification : Text
verification = 39564 ∷ 35777 ∷ []

unfoldable pub claims_resume_verification_broken : Text → Bool
claims_resume_verification_broken reason =
    contains_part (codes "BROKEN") (upper reason)
    && (contains_part (codes "RESUME") (upper reason)
        || contains_part (codes "VERIFICATION") (upper reason)
        || contains_part recovery reason
        || contains_part verification reason)

unfoldable pub n7_rejects_blocked : Text → Text → Bool
unfolding claims_resume_verification_broken
n7_rejects_blocked reason overall =
    claims_resume_verification_broken reason && not (is_text "BROKEN" (upper overall))

abbrev waiting_value : Text → WaitingOn
waiting_value value =
    if is_text "decision" value
    then WaitingOn.on_decision
    else if is_text "external" value
    then WaitingOn.on_external
    else if is_text "dd" value
    then WaitingOn.on_dd
    else WaitingOn.on_nothing

unfoldable pub normalize_waiting_on : Option Text → WaitingOn × Option Text
normalize_waiting_on none = (WaitingOn.on_nothing, none)
normalize_waiting_on (some raw) = (waiting_value (lower (trim raw)), some raw)

-- A key that the update does not have keeps its value.
abbrev pub or_keep : {A : Type 0} → Option A → Option A → Option A
or_keep none old = old
or_keep (some new) old = some new

abbrev pub ended : LineState → Terminal → Reason → LineState
ended state terminal reason = record state {
  terminal = some terminal;
  terminal_reason = some reason;
}

abbrev pub next_round : LineState → ℕ → LineState
next_round state round_no = record state {
  round_no = round_no + 1;
  rounds_recorded = state.rounds_recorded + 1;
}

-- A round that counts for nothing.
abbrev pub wasted : Line → ℕ → RoundRecord → Line
wasted line round_no entry = record line {
  state = next_round line.state round_no;
  guards = record_noop line.guards;
  rounds = line.rounds ++ entry ∷ [];
}

abbrev blocked_state : LineState → CoordinatorResult → WaitingOn × Option Text → LineState
blocked_state state result (waiting_on, declared) =
    record (ended state Terminal.blocked (Reason.said result.reason)) {
      waiting_on = some waiting_on;
      waiting_on_declared = or_keep declared state.waiting_on_declared;
      dd_development_id =
          if is_nil (trim result.dd_development_id)
          then state.dd_development_id
          else some result.dd_development_id;
    }

unfoldable pub blocked_update : LineDeps → Line → ℕ → CoordinatorResult → Line
unfolding n7_rejects_blocked normalize_waiting_on
blocked_update deps line round_no result =
    if n7_rejects_blocked result.reason deps.overall
    then wasted line round_no (RoundRecord.invalid_mismatch round_no)
    else record line {
      state = blocked_state line.state result (normalize_waiting_on result.waiting_on);
    }

abbrev pub faulted : Line → Reason → Line
faulted line reason = record line {
  state = record (ended line.state Terminal.fault reason) { pump_fault = true };
}

abbrev pub prompt_recorded : LineGuards → Option LineGuards → LineGuards
prompt_recorded g none = g
prompt_recorded g (some accepted) = accepted

-- The prompt passed the guards, or the round goes by without the worker.
unfoldable pub prompt_update : LineDeps → Line → ℕ → CoordinatorResult → PromptCheck → Line
prompt_update deps line round_no result check =
    if injectable check
    then (let counted =
          if result.no_progress then record_noop line.guards else record_progress line.guards in
        record line {
          state = record line.state {
            pending_prompt = result.next_prompt;
            pending_sha = check.sha256;
          };
          guards =
              prompt_recorded counted (accept_prompt counted check result.next_prompt round_no);
        })
    else wasted line round_no (RoundRecord.not_injected round_no check)

unfoldable pub continue_update : LineDeps → Line → ℕ → CoordinatorResult → Line
unfolding prompt_update
continue_update deps line round_no result =
    if is_nil (trim result.next_prompt)
    then faulted line Reason.empty_prompt
    else prompt_update deps line round_no result
        (check_prompt deps.digest line.guards result.next_prompt)

unfoldable pub verdict_update : LineDeps → Line → ℕ → CoordinatorResult → Line
unfolding blocked_update continue_update
verdict_update deps line round_no result =
    if is_text "done" (verdict_of result)
    then record line { state = ended line.state Terminal.done (Reason.said result.reason) }
    else if is_text "blocked" (verdict_of result)
    then blocked_update deps line round_no result
    else if is_text "continue" (verdict_of result)
    then continue_update deps line round_no result
    else faulted line (Reason.unrecognised_verdict (verdict_of result))
