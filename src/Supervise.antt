-- ===== src/Supervise.antt =====
-- The release of an integration gate without a human at the question: supervise/preauth.py,
-- supervise/decision_publisher.py and the nodes of graphs/supervisor.py that use them. Times are
-- seconds since the epoch; `fromisoformat`, `int` of a text and `repr` are the interpreter's.
pub mod Protocol
pub mod Release
pub mod Intake
pub mod Judging
pub mod Acting
pub mod Prefixes
pub mod Coverage
pub mod Newest
pub mod Granted
pub mod Fetched
pub mod Grounded
pub mod Sent
pub mod Narrow
use fleet_graph.Common.{Bool, List, Option, String, ℕ}
use fleet_graph.Common.Json.{Fields, Json}

pub record Preauth : Type 0 where
  pub message_id : String
  pub card_entity_id : String
  pub allowed_actions : List String
  pub target_ref_allowlist : List String
  pub expires_at : String
  pub decided_by : String
  pub raw : Fields

-- What `datetime.fromisoformat` makes of a text.
pub data Instant : Type 0 where
  malformed naive : Instant
  aware : ℕ → Instant

pub record PreauthDeps : Type 0 where
  pub fromisoformat : String → Instant
  pub int_of : String → Option ℕ
  pub repr : Json → String

-- Why a prefix of an allowlist is refused.
pub data PrefixRefusal : Type 0 where
  empty_prefix has_space has_pattern : PrefixRefusal
  covers_protected names_protected : String → PrefixRefusal

pub data PreauthError : Type 0 where
  wrong_kind no_card no_actions illegal_actions no_allowlist no_expiry bad_expiry naive_expiry :
      PreauthError
  no_message_id : PreauthError
  bad_prefix : PrefixRefusal → PreauthError

-- What a call raises: a refusal, `get` of a payload that is no dict, or `int` of no number.
pub data Fault : Type 0 where
  refused : PreauthError → Fault
  attribute_error number_error : Fault

pub data Reason : Type 0 where
  not_a_question already_decided not_green no_preauth action_not_covered other_card expired : Reason
  no_target_ref ref_not_covered no_question : Reason

pub record ReleaseEvaluation : Type 0 where
  pub granted : Bool
  pub reasons : List Reason
  pub preauth_message_id : String
  pub target_ref : String
  pub rejections : List (Json × PreauthError)
