-- ===== src/Samples/Network.antt =====
-- The theorems on the egress layer at concrete failures.
use fleet_graph.Common.{
  Option, String, arith, elem, false, if◌then◌else◌, length, ltb, none, some, true, ℕ, ◌↔◌, ◌≡◌,
  ◌≢◌, ◌≤◌, ◌⊎◌,
}
use fleet_graph.Dd.Egress.{
  backoff_retry, business_codes, human_gate, is_transport_failure, layer_failure,
  provider_unavailable, reconfigure,
}
use fleet_graph.Dd.Egress.Outcomes.{
  Explains, layer_failure-disposition, retry_remote-bounded, retry_remote-explained, sum,
}
use fleet_graph.Dd.Egress.Retry.{RemoteResult, RetryRun, default_policy, retry_remote}

-- Two time-outs, then the answer 7.
abbrev flaky : ℕ → RemoteResult ℕ
flaky attempt =
    if ltb attempt 3
    then record { exit_code = 128; stderr = "connection timed out"; value = 0 }
    else record { exit_code = 0; stderr = ""; value = 7 }

abbrev steady : ℕ → ℕ
steady attempt = 500

abbrev run : RetryRun ℕ
run = retry_remote default_policy (some 100000000) steady flaky

retry_remote-explained_example :
    Explains default_policy (some 100000000) steady flaky run.end 1 run.evidence
retry_remote-explained_example =
    retry_remote-explained default_policy (some 100000000) steady flaky (omega arith)

retry_remote-bounded_example :
    (length run.evidence ≤ 5)
    × ((f : ℕ) → ◌≡◌ {A = Option ℕ} (some 100000000) (some f) → sum run.slept ≤ f)
retry_remote-bounded_example = retry_remote-bounded default_policy (some 100000000) steady flaky

abbrev rejected : String
rejected = "GATE_REJECTED"

layer_failure-disposition_example :
    (((layer_failure rejected "tests failed" none).disposition ≡ backoff_retry)
      ↔ ((is_transport_failure "tests failed" none ≡ true) ⊎ (rejected ≡ provider_unavailable)))
    × (((layer_failure rejected "tests failed" none).disposition ≡ human_gate) ↔ (
        (is_transport_failure "tests failed" none ≡ false) × (elem rejected business_codes ≡ true)))
    × (((layer_failure rejected "tests failed" none).disposition ≡ reconfigure) ↔ (
        (is_transport_failure "tests failed" none ≡ false)
        × (elem rejected business_codes ≡ false)
        × (rejected ≢ provider_unavailable)))
layer_failure-disposition_example = layer_failure-disposition rejected "tests failed" none
