-- ===== src/DecisionBridge/Resolver.antt =====
-- From a decision to at most one waiting owner: decision_bridge/resolver.py, with the legacy fallback
-- of goal_interrupt/resolver.py. The reason texts are left out; a set is a list of distinct texts, of
-- which only membership and number are used.
use fleet_graph.Common.{
  Bool, List, Option, String, [], any, elem, eqb, false, filter, get_or, if◌then◌else◌, is_some,
  leb, length, none, not, some, true, ℕ, ◌&&◌, ◌++◌, ◌==◌, ◌||◌, ◌∷◌,
}
use fleet_graph.Common.Dict.{Dict, keys, lookup}
use fleet_graph.Common.Json.{Json, get_field}
use fleet_graph.Common.Text.{codes}
use fleet_graph.Common.Values.{str_or_empty}
use fleet_graph.DecisionBridge.{Message, OwnerTarget}
use fleet_graph.Graphs.Guards.{is_space}
use fleet_graph.Scheduler.Stall.{texts}

pub data Category : Type 0 where
  resolved no_waiting_owner ambiguous stale invalid : Category

pub record Verdict : Type 0 where
  pub category : Category
  pub target : Option OwnerTarget
  pub question_note_id : String
  pub card_entity_id : String
  pub legacy : Bool

-- The owners that wait, none where the discovery fails; the messages that refer to a question, none
-- where the endpoint fails; the texts of questions; `repr` of a list or a dict.
pub record ResolverDeps : Type 0 where
  pub discover_all : Option (List OwnerTarget)
  pub refs_to : Option (String → Option (List String))
  pub channel_id : Option String
  pub question_texts : Dict String
  pub repr : Json → String

abbrev pub is_empty : String → Bool
is_empty text = text == ""

abbrev pub payload_field : (Json → String) → String → Json → String
payload_field repr key (Json.obj fields) = str_or_empty repr (get_field key fields)
payload_field repr key _ = ""

abbrev pub is_valid : ResolverDeps → Message → Bool
is_valid deps message =
    (message.kind == "work.decision.v1")
    && any (λ c. not (is_space c)) (codes (payload_field deps.repr "decision" message.payload))

abbrev pub distinct : List String → List String
distinct [] = []
distinct (x ∷ xs) = let rest = distinct xs in if elem x rest then rest else x ∷ rest

abbrev pub question_ids : List OwnerTarget → List String
question_ids [] = []
question_ids (t ∷ ts) =
    let rest = question_ids ts in
    if is_empty t.question_note_id then rest else t.question_note_id ∷ rest

-- The reverse look-up at one question; an endpoint that fails refers to nothing.
abbrev pub refers : ResolverDeps → String → String → Bool
refers deps message_id question = elim deps.refs_to [
  | none ↦ false
  | some endpoint ↦ elem message_id (get_or (endpoint question) [])
]

abbrev pub referenced_questions : ResolverDeps → String → List OwnerTarget → List String
referenced_questions deps message_id waiting =
    filter (refers deps message_id) (distinct (question_ids waiting ++ keys deps.question_texts))

abbrev pub same_owner : OwnerTarget → OwnerTarget → Bool
same_owner t u = (t.kind == u.kind) && (t.id == u.id) && eqb t.generation u.generation

-- unique[(kind, id, generation)] = target
abbrev pub add_owner : OwnerTarget → List OwnerTarget → List OwnerTarget
add_owner t [] = t ∷ []
add_owner t (u ∷ us) = let rest = add_owner t us in if same_owner t u then t ∷ us else u ∷ rest

abbrev pub unique_owners : List OwnerTarget → List OwnerTarget → List OwnerTarget
unique_owners found [] = found
unique_owners found (t ∷ ts) = unique_owners (add_owner t found) ts

abbrev pub is_stale : ResolverDeps → Message → List String → OwnerTarget → Bool
is_stale deps message referenced target =
    let expected = if target.kind == "dd" then "awaiting_gate" else "parked" in
    let card = payload_field deps.repr "card_entity_id" message.payload in
    (not (is_empty target.state) && not (target.state == expected))
    || (not (is_empty card)
        && not (is_empty target.card_entity_id)
        && not (card == target.card_entity_id))
    || not (elem target.question_note_id referenced)

abbrev pub refusal : Category → Verdict
refusal category = record {
  category = category;
  target = none;
  question_note_id = "";
  card_entity_id = "";
  legacy = false;
}

-- A character of an identifier: A-Z, a-z, 0-9, _ and -
abbrev pub is_id_char : ℕ → Bool
is_id_char c =
    (leb 65 c && leb c 90)
    || (leb 97 c && leb c 122)
    || (leb 48 c && leb c 57)
    || eqb c 95
    || eqb c 45

-- What follows an occurrence at the front of a text, of the given part, is no identifier character.
abbrev pub stands_alone : List ℕ → List ℕ → Bool
stands_alone [] [] = true
stands_alone [] (c ∷ cs) = not (is_id_char c)
stands_alone (p ∷ ps) [] = false
stands_alone (p ∷ ps) (c ∷ cs) = eqb p c && stands_alone ps cs

abbrev pub delimited_from : Bool → List ℕ → List ℕ → Bool
delimited_from edge part [] = edge && stands_alone part []
delimited_from edge part (c ∷ cs) =
    (edge && stands_alone part (c ∷ cs)) || delimited_from (not (is_id_char c)) part cs

abbrev pub folder_id_in_text : String → String → Bool
folder_id_in_text text folder = delimited_from true (codes folder) (codes text)

abbrev pub is_terminal_owner : OwnerTarget → Bool
is_terminal_owner owner = not (is_empty owner.state) && not (owner.state == "parked")

abbrev pub pairs_with : OwnerTarget → List String → List (OwnerTarget × String)
pairs_with owner [] = []
pairs_with owner (q ∷ qs) = (owner, q) ∷ pairs_with owner qs

abbrev pub pairs_of : List OwnerTarget → List String → List (OwnerTarget × String)
pairs_of [] questions = []
pairs_of (owner ∷ owners) questions = pairs_with owner questions ++ pairs_of owners questions

abbrev pub only_one : List (OwnerTarget × String) → List (OwnerTarget × String)
only_one (found ∷ []) = found ∷ []
only_one _ = []

-- The one owner and question of a folder, if they are the only ones.
abbrev pub legacy_owner_fallback :
    String → List String → Dict String → List OwnerTarget → List (OwnerTarget × String)
legacy_owner_fallback folder referenced texts owners = only_one (
    pairs_of (filter (λ owner. not (is_terminal_owner owner) && (owner.id == folder)) owners)
      (filter (λ q. folder_id_in_text (get_or (lookup q texts) "") folder) referenced))

abbrev pub fallbacks :
    List String → List String → Dict String → List OwnerTarget → List (OwnerTarget × String)
fallbacks [] referenced texts owners = []
fallbacks (folder ∷ folders) referenced texts owners =
    legacy_owner_fallback folder referenced texts owners
    ++ fallbacks folders referenced texts owners

abbrev pub folder_ids : List OwnerTarget → List String
folder_ids [] = []
folder_ids (t ∷ ts) = let rest = folder_ids ts in if is_empty t.id then rest else t.id ∷ rest

abbrev pub settled_legacy : List (OwnerTarget × String) → Verdict
settled_legacy ((target, question) ∷ []) = record {
  category = Category.resolved;
  target = some target;
  question_note_id = question;
  card_entity_id = target.card_entity_id;
  legacy = true;
}
settled_legacy _ = record (refusal Category.no_waiting_owner) { legacy = true }

-- The fallback applies where there are question texts, an endpoint and owners without a question.
abbrev pub legacy_resolve : ResolverDeps → List OwnerTarget → List String → Verdict
legacy_resolve deps waiting referenced =
    let owners = filter (λ t. is_empty t.question_note_id) waiting in
    if leb (length deps.question_texts) 0 || not (is_some deps.refs_to) || leb (length owners) 0
    then refusal Category.no_waiting_owner
    else settled_legacy
        (fallbacks (distinct (folder_ids owners)) referenced deps.question_texts owners)

abbrev pub settled_on : ResolverDeps → Message → List String → OwnerTarget → Verdict
settled_on deps message referenced target =
    if is_stale deps message referenced target
    then record (refusal Category.stale) { target = some target }
    else record {
      category = Category.resolved;
      target = some target;
      question_note_id = target.question_note_id;
      card_entity_id = target.card_entity_id;
      legacy = false;
    }

abbrev pub among :
    ResolverDeps → Message → List OwnerTarget → List String → List OwnerTarget → Verdict
among deps message waiting referenced [] = legacy_resolve deps waiting referenced
among deps message waiting referenced (target ∷ []) = settled_on deps message referenced target
among deps message waiting referenced (target ∷ other ∷ more) = refusal Category.ambiguous

abbrev pub matching_owners : List OwnerTarget → List String → List OwnerTarget
matching_owners waiting referenced =
    unique_owners [] (filter (λ t. elem t.question_note_id referenced) waiting)

abbrev pub resolve_among : ResolverDeps → Message → Option (List OwnerTarget) → Verdict
resolve_among deps message none = refusal Category.no_waiting_owner
resolve_among deps message (some waiting) =
    let referenced = referenced_questions deps message.message_id waiting in
    among deps message waiting referenced (matching_owners waiting referenced)

abbrev pub resolve_decision : ResolverDeps → Message → Verdict
resolve_decision deps message =
    if get_or deps.channel_id "board:work-notes" == "board:work-notes"
    then (if is_valid deps message
        then resolve_among deps message deps.discover_all
        else refusal Category.invalid)
    else refusal Category.invalid
