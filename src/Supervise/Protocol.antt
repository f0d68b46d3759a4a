-- ===== src/Supervise/Protocol.antt =====
-- The protocol object and the three factors: supervise/preauth.py.
use fleet_graph.Common.{
  Bool, List, Option, Result, String, [], any, elem, eqb, err, false, if◌then◌else◌, none, not, ok,
  some, true, ℕ, ◌++◌, ◌==◌, ◌>>◌, ◌||◌, ◌∷◌,
}
use fleet_graph.Common.Decimal.{concat}
use fleet_graph.Common.Json.{Fields, Items, Json, get_field}
use fleet_graph.Common.Text.{add_code, codes, starts_with}
use fleet_graph.Common.Values.{is_truthy, str_of, str_or_empty}
use fleet_graph.Graphs.Guards.{is_space, text_eq}
use fleet_graph.Supervise.{Fault, Instant, Preauth, PreauthDeps, PreauthError, PrefixRefusal}
use Prim.Native.Char.{code}

abbrev pub protected_branches : List String
protected_branches = "main" ∷ "master" ∷ "production" ∷ "release" ∷ []

abbrev pub preauth_allowed_actions : List String
preauth_allowed_actions = "approve" ∷ []

-- f"refs/heads/{branch}"
abbrev pub head_ref : String → List ℕ
head_ref branch = codes "refs/heads/" ++ codes branch

-- prefix.split("/")
unfoldable pub segments : List ℕ → List (List ℕ)
segments [] = [] ∷ []
segments (c ∷ cs) = let rest = segments cs in if eqb c b'/' then [] ∷ rest else add_code c rest

abbrev pub has_segment : List ℕ → List ℕ → Bool
has_segment part text = any (text_eq part) (segments text)

abbrev pub is_wildcard : ℕ → Bool
is_wildcard c = eqb c b'*' || eqb c b'?' || eqb c b'['

abbrev pub branch_refusal : List ℕ → String → Option PrefixRefusal
branch_refusal prefix branch =
    if starts_with (codes branch) prefix || starts_with (head_ref branch) prefix
    then some (PrefixRefusal.covers_protected branch)
    else if has_segment (codes branch) prefix
    then some (PrefixRefusal.names_protected branch)
    else none

abbrev pub or_else : Option PrefixRefusal → Option PrefixRefusal → Option PrefixRefusal
or_else (some r) later = some r
or_else none later = later

abbrev pub branches_refusal : List ℕ → List String → Option PrefixRefusal
branches_refusal prefix [] = none
branches_refusal prefix (b ∷ bs) = or_else (branch_refusal prefix b) (branches_refusal prefix bs)

unfoldable pub refusal_for_prefix : String → Option PrefixRefusal
refusal_for_prefix prefix =
    if prefix == ""
    then some PrefixRefusal.empty_prefix
    else if any is_space (codes prefix)
    then some PrefixRefusal.has_space
    else if any is_wildcard (codes prefix)
    then some PrefixRefusal.has_pattern
    else branches_refusal (codes prefix) protected_branches

abbrev pub epoch_of : Instant → Result PreauthError ℕ
epoch_of Instant.malformed = err PreauthError.bad_expiry
epoch_of Instant.naive = err PreauthError.naive_expiry
epoch_of (Instant.aware t) = ok t

-- value.replace("Z", "+00:00")
abbrev pub with_offset : String → String
with_offset String.[] = ""
with_offset (String.◌∷◌ c s) =
    let rest = with_offset s in
    if eqb (code c) b'Z' then concat "+00:00" rest else String.◌∷◌ c rest

unfoldable pub parse_expiry : PreauthDeps → String → Result PreauthError ℕ
parse_expiry deps value =
    if any (λ c. not (is_space c)) (codes value)
    then epoch_of (deps.fromisoformat (with_offset value))
    else err PreauthError.no_expiry

-- message.get("payload") or {}
abbrev pub as_payload : Json → Result Fault Fields
as_payload (Json.obj fields) = ok fields
as_payload value = if is_truthy value then err Fault.attribute_error else ok Fields.end

abbrev pub payload_of : Fields → Result Fault Fields
payload_of message = as_payload (get_field "payload" message)

abbrev pub is_str : String → Json → Bool
is_str s (Json.str t) = t == s
is_str s _ = false

abbrev pub is_preauth : Fields → Bool
is_preauth payload = is_str "preauth" (get_field "kind" payload)

abbrev pub texts_of : PreauthDeps → Items → List String
texts_of deps Items.nil = []
texts_of deps (Items.cons x more) = str_of deps.repr x ∷ texts_of deps more

-- The texts of a list; nothing where the value is no list or an empty one.
abbrev pub some_texts : PreauthDeps → Json → List String
some_texts deps (Json.arr xs) = texts_of deps xs
some_texts deps _ = []

abbrev pub require : PreauthError → Bool → Result PreauthError Bool
require e true = ok true
require e false = err e

abbrev pub prefix_refused :
    Option PrefixRefusal → Result PreauthError Bool → Result PreauthError Bool
prefix_refused (some r) later = err (PreauthError.bad_prefix r)
prefix_refused none later = later

abbrev pub allowlist_checked : List String → Result PreauthError Bool
allowlist_checked [] = ok true
allowlist_checked (p ∷ ps) = prefix_refused (refusal_for_prefix p) (allowlist_checked ps)

abbrev pub given : {A : Type 0} → List A → Bool
given [] = false
given (x ∷ xs) = true

-- The preauth that a message would be.
abbrev pub draft : PreauthDeps → Fields → Fields → Preauth
draft deps message payload = record {
  message_id = str_or_empty deps.repr (get_field "message_id" message);
  card_entity_id = str_or_empty deps.repr (get_field "card_entity_id" payload);
  allowed_actions = some_texts deps (get_field "allowed_actions" payload);
  target_ref_allowlist = some_texts deps (get_field "target_ref_allowlist" payload);
  expires_at = str_or_empty deps.repr (get_field "expires_at" payload);
  decided_by = str_or_empty deps.repr (get_field "decided_by" payload);
  raw = message;
}

-- The checks, in the order in which the first that fails is raised.
unfoldable pub vetted : PreauthDeps → Bool → Preauth → Result PreauthError Preauth
unfolding refusal_for_prefix parse_expiry segments
vetted deps kind p = do
  require PreauthError.wrong_kind kind
  require PreauthError.no_card (not (p.card_entity_id == ""))
  require PreauthError.no_actions (given p.allowed_actions)
  require PreauthError.illegal_actions
      (not (any (λ a. not (elem a preauth_allowed_actions)) p.allowed_actions))
  require PreauthError.no_allowlist (given p.target_ref_allowlist)
  allowlist_checked p.target_ref_allowlist
  parse_expiry deps p.expires_at
  require PreauthError.no_message_id (not (p.message_id == ""))
  ok p

abbrev pub parsed : PreauthDeps → Fields → Fields → Result PreauthError Preauth
parsed deps message payload = vetted deps (is_preauth payload) (draft deps message payload)
