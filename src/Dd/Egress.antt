-- ===== src/Dd/Egress.antt =====
-- The layered classification of a failed remote operation: dd/egress.py.
pub mod Retry
pub mod Outcomes
use fleet_graph.Common.{
  ℕ, String, Bool, true, false, ◌||◌, Option, none, some, List, [], ◌∷◌, any, elem, eqb, ◌==◌,
  if◌then◌else◌,
}
use fleet_graph.Common.Text.{codes, lower, contains_part}

-- The closed set of texts that name a transport failure.
unfoldable pub transport_markers : List String
transport_markers =
    "could not resolve host" ∷ "name or service not known" ∷ "temporary failure in name resolution"
    ∷ "failed to connect" ∷ "connection refused" ∷ "connection reset by peer"
    ∷ "connection timed out" ∷ "the tls connection was non-properly terminated" ∷ "gnutls"
    ∷ "handshake failed" ∷ "ssl" ∷ "tls" ∷ "returned error: 5" ∷ "timed out" ∷ "timeout" ∷ []

-- Whether the lowered text holds the marker.
unfoldable pub speaks : List ℕ → String → Bool
speaks text marker = contains_part (codes marker) text

unfoldable pub timeout_exit : Option ℕ → Bool
timeout_exit none = false
timeout_exit (some exit_code) = eqb exit_code 124

unfoldable pub is_transport_failure : String → Option ℕ → Bool
unfolding speaks transport_markers
is_transport_failure stderr exit_code =
    if timeout_exit exit_code then true else any (speaks (lower (codes stderr))) transport_markers

pub data GitFailure : Type 0 where
  egress_transport repo_rejected repo_conflict unclassified : GitFailure

unfoldable pub classify_git_failure : String → Option ℕ → GitFailure
classify_git_failure stderr exit_code =
    let text = lower (codes stderr) in
    if is_transport_failure stderr exit_code
    then egress_transport
    else if speaks text "remote rejected"
    then repo_rejected
    else if speaks text "non-fast-forward" || speaks text "fetch first"
    then repo_conflict
    else unclassified

pub data RootCause : Type 0 where
  transport execution business : RootCause

pub data Disposition : Type 0 where
  backoff_retry reconfigure human_gate : Disposition

unfoldable pub disposition_of : RootCause → Disposition
disposition_of transport = backoff_retry
disposition_of execution = reconfigure
disposition_of business = human_gate

abbrev pub provider_unavailable : String
provider_unavailable = "PROVIDER_UNAVAILABLE"

unfoldable pub business_codes : List String
business_codes =
    "ACCEPTANCE_FAILED" ∷ "GATE_REJECTED" ∷ "GATE_VERDICT_UNRECOGNIZED" ∷ "SCOPE_BOUNDARY_VIOLATION"
    ∷ []

unfoldable pub root_cause_for : String → String → Option ℕ → RootCause
root_cause_for failure_code detail exit_code =
    if is_transport_failure detail exit_code
    then transport
    else if elem failure_code business_codes
    then business
    else if failure_code == provider_unavailable
    then transport
    else execution

pub record FailureLayer : Type 0 where
  pub code : String
  pub root_cause : RootCause
  pub disposition : Disposition

unfoldable pub layer_failure : String → String → Option ℕ → FailureLayer
unfolding disposition_of
layer_failure failure_code detail exit_code = record {
  code = failure_code;
  root_cause = root_cause_for failure_code detail exit_code;
  disposition = disposition_of (root_cause_for failure_code detail exit_code);
}
