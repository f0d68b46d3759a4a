-- ===== src/GoalEnroll/Queue.antt =====
-- The queue of enrollment applications: goal_enroll/queue.py. An application is a dict of JSON
-- values; the queue's file is its text, empty where there is no file. What `json` writes and reads is
-- a parameter. An operation that raises leaves the file as it was.
pub mod Filing
pub mod Decisions
pub mod Submitting
use fleet_graph.Common.{
  Bool, List, Option, Result, String, [], err, false, get_or, if◌then◌else◌, ltb, none, not, ok,
  some, true, ℕ, ◌++◌, ◌==◌, ◌>>=◌, ◌∷◌,
}
use fleet_graph.Common.Dict.{Dict, insert, lookup, values}
use fleet_graph.Common.Json.{Fields, Items, Json}
use fleet_graph.Common.Text.{splitlines}
use fleet_graph.GoalLine.Verdict.{trim}

abbrev pub Application : Type 0
Application = Dict Json

-- What `json.loads` makes of a text: an error, a value that is no dict, or a dict.
pub data Loaded : Type 0 where
  undecodable no_dict : Loaded
  dict : Application → Loaded

-- `json.dumps(record, ensure_ascii=False, sort_keys=True)` and `json.loads`.
pub record Codec : Type 0 where
  pub dumps : Application → List ℕ
  pub loads : List ℕ → Loaded

pub data QueueError : Type 0 where
  undecodable_line corrupt : QueueError
  not_pending : String → QueueError

pub record EnrollQueue : Type 0 where
  pub on_disk : Bool
  pub by_folder : Dict Application
  pub queue_file : List ℕ

abbrev pub text_of : Option Json → Option String
text_of (some (Json.str s)) = some s
text_of _ = none

abbrev pub folder_of : Application → Option String
folder_of r = text_of (lookup "folder_id" r)

-- entry.get("status") == "pending"
abbrev pub is_pending : Option Application → Bool
is_pending none = false
is_pending (some r) = elim (text_of (lookup "status" r)) [ none ↦ false | some s ↦ s == "pending" ]

-- Python's truth of a value.
abbrev truthy : Option Json → Bool
truthy none = false
truthy (some v) = elim v [
  | Json.null ↦ false
  | Json.bool b ↦ b
  | Json.num n ↦ ltb 0 n
  | Json.str s ↦ not (s == "")
  | Json.arr xs ↦ elim xs [ Items.nil ↦ false | Items.cons x more ↦ true ]
  | Json.obj fs ↦ elim fs [ Fields.end ↦ false | Fields.field k x more ↦ true ]
]

-- One line of the file: a record without a text folder is corrupt, one with an empty folder is
-- passed over.
abbrev pub file_under :
    Option String → Application → Dict Application → Result QueueError (Dict Application)
file_under none r m = err QueueError.corrupt
file_under (some k) r m = if k == "" then ok m else ok (insert k r m)

abbrev pub loaded_under : Loaded → Dict Application → Result QueueError (Dict Application)
loaded_under Loaded.undecodable m = err QueueError.undecodable_line
loaded_under Loaded.no_dict m = err QueueError.corrupt
loaded_under (Loaded.dict r) m = file_under (folder_of r) r m

-- One stripped line; an empty one is passed over.
abbrev pub line_under : Codec → List ℕ → Dict Application → Result QueueError (Dict Application)
line_under codec [] m = ok m
line_under codec (c ∷ cs) m = loaded_under (codec.loads (c ∷ cs)) m

unfoldable pub load_from :
    Codec → Dict Application → List (List ℕ) → Result QueueError (Dict Application)
unfolding trim
load_from codec m [] = ok m
load_from codec m (line ∷ lines) = line_under codec (trim line) m >>= λ n. load_from codec n lines

-- What every synchronized operation does first.
unfoldable pub refresh : Codec → EnrollQueue → Result QueueError EnrollQueue
unfolding load_from splitlines
refresh codec q =
    if q.on_disk
    then load_from codec [] (splitlines q.queue_file)
      >>= (λ m. ok (record { on_disk = q.on_disk; by_folder = m; queue_file = q.queue_file }))
    else ok q

abbrev pub body_of : Codec → List Application → List ℕ
body_of codec [] = []
body_of codec (r ∷ rs) = codec.dumps r ++ b'\n' ∷ body_of codec rs

unfoldable pub persist : Codec → EnrollQueue → Dict Application → EnrollQueue
persist codec q m = record {
  on_disk = q.on_disk;
  by_folder = m;
  queue_file = if q.on_disk then body_of codec (values m) else q.queue_file;
}

abbrev pub history_item : String → Json → Json
history_item status at =
    Json.obj (Fields.field "status" (Json.str status) (Fields.field "at" at Fields.end))

abbrev pub fresh_record : String → String → Application → Application
fresh_record now folder_id entry =
    insert "history"
      (Json.arr (
        Items.cons (history_item "pending" (get_or (lookup "submitted_at" entry) Json.null))
          Items.nil))
      (insert "submitted_at"
        (if truthy (lookup "submitted_at" entry)
          then get_or (lookup "submitted_at" entry) Json.null
          else Json.str now)
        (insert "status" (Json.str "pending") (insert "folder_id" (Json.str folder_id) entry)))

abbrev pub with_pending : Bool → Application → Application
with_pending b r = insert "already_pending" (Json.bool b) r

-- `folder_id` is the text of the entry's own.
unfoldable pub submitted :
    Codec → String → String → Application → EnrollQueue → EnrollQueue × Application
unfolding persist
submitted codec now folder_id entry q =
    if is_pending (lookup folder_id q.by_folder)
    then (q, with_pending true (get_or (lookup folder_id q.by_folder) []))
    else (
      persist codec q (insert folder_id (fresh_record now folder_id entry) q.by_folder),
      with_pending false (fresh_record now folder_id entry),
    )

unfoldable pub submit :
    Codec
    → String
    → String
    → Application
    → EnrollQueue
    → Result QueueError (EnrollQueue × Application)
unfolding refresh
submit codec now folder_id entry q =
    refresh codec q >>= λ fresh. ok (submitted codec now folder_id entry fresh)

abbrev noted :
    Codec → String → String → EnrollQueue → Option Application → EnrollQueue × Option Application
noted codec folder_id value q none = (q, none)
noted codec folder_id value q (some r) = (
  persist codec q (insert folder_id (insert "board_notify" (Json.str value) r) q.by_folder),
  some (insert "board_notify" (Json.str value) r),
)

unfoldable pub record_board_notify :
    Codec → String → String → EnrollQueue → Result QueueError (EnrollQueue × Option Application)
unfolding refresh persist
record_board_notify codec folder_id value q = refresh codec q >>= λ fresh.
    ok (noted codec folder_id value fresh (lookup folder_id fresh.by_folder))

abbrev pub require_pending : String → EnrollQueue → Result QueueError Application
require_pending folder_id q =
    if is_pending (lookup folder_id q.by_folder)
    then ok (get_or (lookup folder_id q.by_folder) [])
    else err (QueueError.not_pending folder_id)

unfoldable pub with_extra : Dict Json → Application → Application
with_extra [] r = r
with_extra ((k, v) ∷ extra) r = with_extra extra (insert k v r)

unfoldable pub append_item : Items → Json → Items
append_item Items.nil x = Items.cons x Items.nil
append_item (Items.cons y ys) x = Items.cons y (append_item ys x)

-- list(existing.get("history") or [])
abbrev pub history_of : Application → Items
history_of r = elim (lookup "history" r) [
  | none ↦ Items.nil
  | some v ↦ elim v [ Json.arr xs ↦ xs | _ ↦ Items.nil ]
]

unfoldable pub decided : String → String → Dict Json → Application → Application
unfolding with_extra append_item
decided now status extra existing =
    insert "history"
      (Json.arr (append_item (history_of existing) (history_item status (Json.str now))))
      (with_extra extra (insert "status" (Json.str status) existing))

unfoldable pub transition_to :
    Codec
    → String
    → String
    → String
    → Dict Json
    → EnrollQueue
    → Result QueueError (EnrollQueue × Application)
unfolding refresh persist decided
transition_to codec now folder_id status extra q = refresh codec q >>= λ fresh.
    (require_pending folder_id fresh >>= λ existing. ok (
      persist codec fresh (insert folder_id (decided now status extra existing) fresh.by_folder),
      decided now status extra existing,
    ))

abbrev pub withdraw :
    Codec → String → String → String → EnrollQueue → Result QueueError (EnrollQueue × Application)
withdraw codec now folder_id by q =
    transition_to codec now folder_id "withdrawn" (("withdrawn_by", Json.str by) ∷ []) q

abbrev pub pointer : String → String → Dict Json
pointer decided_by decision_ref =
    ("decided_by", Json.str decided_by) ∷ ("decision_ref", Json.str decision_ref) ∷ []

abbrev pub mark_admitted :
    Codec
    → String
    → String
    → String
    → String
    → EnrollQueue
    → Result QueueError (EnrollQueue × Application)
mark_admitted codec now folder_id decided_by decision_ref q =
    transition_to codec now folder_id "admitted" (pointer decided_by decision_ref) q

abbrev pub mark_rejected :
    Codec
    → String
    → String
    → String
    → String
    → EnrollQueue
    → Result QueueError (EnrollQueue × Application)
mark_rejected codec now folder_id decided_by decision_ref q =
    transition_to codec now folder_id "rejected" (pointer decided_by decision_ref) q
