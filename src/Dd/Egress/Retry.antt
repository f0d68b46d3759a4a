-- ===== src/Dd/Egress/Retry.antt =====
-- The bounded exponential backoff of a remote operation: dd/egress.py. Times are exact: seconds are
-- whole, as the policy's are, the jitter fraction is in hundredths and the random number in
-- thousandths, so a delay is a whole number of hundred-thousandths of a second.
use fleet_graph.Common.{
  ℕ, zero, suc, ◌+◌, ◌-◌, ◌*◌, ◌^◌, min, String, Bool, false, Option, none, some, List, [], ◌∷◌,
  ◌++◌, ltb, leb, eqb, if◌then◌else◌,
}
use fleet_graph.Dd.Egress.{GitFailure, egress_transport, classify_git_failure}

pub record EgressPolicy : Type 0 where
  pub base_seconds : ℕ
  pub factor : ℕ
  pub max_delay_seconds : ℕ
  pub max_attempts : ℕ
  pub jitter_hundredths : ℕ

abbrev pub default_policy : EgressPolicy
default_policy = record {
  base_seconds = 2;
  factor = 2;
  max_delay_seconds = 60;
  max_attempts = 5;
  jitter_hundredths = 20;
}

-- The ladder before the jitter, in seconds.
unfoldable pub raw_delay : ℕ → EgressPolicy → ℕ
raw_delay attempt policy =
    min (policy.base_seconds * policy.factor ^ (attempt - 1)) policy.max_delay_seconds

-- `raw * (1 + (2 rand - 1) jitter)`, and 0 where that is negative. `rand` is in thousandths.
unfoldable pub backoff_delay : ℕ → EgressPolicy → ℕ → ℕ
unfolding raw_delay
backoff_delay attempt policy rand =
    raw_delay attempt policy
    * (100000 + 2 * rand * policy.jitter_hundredths - 1000 * policy.jitter_hundredths)

pub record RemoteResult (A : Type 0) : Type 0 where
  pub exit_code : ℕ
  pub stderr : String
  pub value : A

pub record Evidence : Type 0 where
  pub attempt : ℕ
  pub exit : ℕ
  pub stderr : String
  pub classification : Option GitFailure

unfoldable pub evidence_line : {A : Type 0} → ℕ → RemoteResult A → Evidence
evidence_line attempt result = record {
  attempt = attempt;
  exit = result.exit_code;
  stderr = result.stderr;
  classification =
      if eqb result.exit_code 0
      then none
      else some (classify_git_failure result.stderr (some result.exit_code));
}

pub data RetryEnd (A : Type 0) : Type 0 where
  returned : A → RetryEnd A
  repo_error : GitFailure → ℕ → String → RetryEnd A
  transport_exhausted : ℕ → String → RetryEnd A

pub record RetryRun (A : Type 0) : Type 0 where
  pub end : RetryEnd A
  pub evidence : List Evidence
  pub slept : List ℕ

-- What the run did before, put in front of what it does from here.
abbrev pub prepend : {A : Type 0} → List Evidence → List ℕ → RetryRun A → RetryRun A
prepend lines delays run = record run {
  evidence = lines ++ run.evidence;
  slept = delays ++ run.slept;
}

abbrev pub past_fence : Option ℕ → ℕ → Bool
past_fence none total = false
past_fence (some fence) total = ltb fence total

module _ {A : Type 0} (policy : EgressPolicy) (fence : Option ℕ) (rand : ℕ → ℕ)
    (operation : ℕ → RemoteResult A) where
  -- The loop over `range(attempt, max_attempts + 1)`: `left` rounds are left, `spent` has been slept.
  unfoldable pub attempts_from : ℕ → ℕ → ℕ → RetryRun A
  attempts_from zero attempt spent = record {
    end = transport_exhausted (attempt - 1) "";
    evidence = [];
    slept = [];
  }
  attempts_from (suc left) attempt spent =
      let result = operation attempt in
      let line = evidence_line attempt result in
      let delay = backoff_delay attempt policy (rand attempt) in
      let rest = attempts_from left (attempt + 1) (spent + delay) in
      if eqb result.exit_code 0
      then record { end = returned result.value; evidence = line ∷ []; slept = [] }
      else elim (classify_git_failure result.stderr (some result.exit_code)) [
        | egress_transport ↦
            if leb policy.max_attempts attempt
            then record {
              end = transport_exhausted attempt result.stderr;
              evidence = line ∷ [];
              slept = [];
            }
            else if past_fence fence (spent + delay)
            then record {
              end = transport_exhausted attempt result.stderr;
              evidence = line ∷ [];
              slept = [];
            }
            else prepend (line ∷ []) (delay ∷ []) rest
        | failure ↦ record {
          end = repo_error failure result.exit_code result.stderr;
          evidence = line ∷ [];
          slept = [];
        }
      ]

  unfoldable pub retry_remote : RetryRun A
  unfolding attempts_from
  retry_remote = attempts_from policy.max_attempts 1 0
