-- ===== src/GoalEnroll/Queue/Filing.antt =====
-- The queue's file holds what the memory holds: goal_enroll/queue.py, `_load` and `_persist_queue`.
use fleet_graph.Common.{
  Bool, Bool-cases, List, Option, String, [], any, ap, arith, eq_iff, false, if◌then◌else◌, inl,
  inr, none, ok, refl, some, subst, sym, true, ℕ, ◌++◌, ◌==◌, ◌>>=◌, ◌∙◌, ◌∷◌, ◌≡◌, ◌≢◌,
}
use fleet_graph.Common.Dict.{Dict, insert, lookup, lookup-insert_ne, values}
use fleet_graph.Common.Text.{is_boundary, splitlines, splitlines-line}
use fleet_graph.GoalEnroll.Queue.{
  Application, Codec, EnrollQueue, Loaded, body_of, file_under, folder_of, line_under, load_from,
  loaded_under, persist, refresh, text_of,
}
use fleet_graph.GoalLine.Verdict.{trim, trim-framed}

-- Every application is filed once, under its own nonempty folder.
abbrev pub Filed : Dict Application → Type 0
Filed [] = Unit
Filed ((k, r) ∷ m) = (k ≢ "") × (folder_of r ≡ some k) × (lookup k m ≡ none) × Filed m

-- A record that `json` writes between braces without a code that ends a line, and reads back as a
-- dict that has the same texts and is written the same. `json` escapes the control codes and leaves
-- U+0085, U+2028 and U+2029 as they are.
pub record Written (codec : Codec) (r : Application) : Type 0 where
  pub inner : List ℕ
  pub braced : codec.dumps r ≡ b'{' ∷ (inner ++ b'}' ∷ [])
  pub one_line : any is_boundary (codec.dumps r) ≡ false
  pub back : Application
  pub reads : codec.loads (codec.dumps r) ≡ Loaded.dict back
  pub again : codec.dumps back ≡ codec.dumps r
  pub same_text : (k : String) → text_of (lookup k back) ≡ text_of (lookup k r)

abbrev pub AllWritten : Codec → Dict Application → Type 0
AllWritten codec [] = Unit
AllWritten codec ((k, r) ∷ m) = Written codec r × AllWritten codec m

-- Between operations the file, where there is one, is the memory written out.
pub record Sound (codec : Codec) (q : EnrollQueue) : Type 0 where
  pub filed : Filed q.by_folder
  pub written : q.on_disk ≡ true → AllWritten codec q.by_folder
  pub stored : q.on_disk ≡ true → q.queue_file ≡ body_of codec (values q.by_folder)

abbrev pub dict_or : Application → Loaded → Application
dict_or r (Loaded.dict back) = back
dict_or r _ = r

-- The record that stands in the memory once the file has been read.
abbrev pub reloaded : Codec → Application → Application
reloaded codec r = dict_or r (codec.loads (codec.dumps r))

abbrev pub maybe_reloaded : Codec → Option Application → Option Application
maybe_reloaded codec none = none
maybe_reloaded codec (some r) = some (reloaded codec r)

abbrev pub all_reloaded : Codec → Dict Application → Dict Application
all_reloaded codec [] = []
all_reloaded codec ((k, r) ∷ m) = (k, reloaded codec r) ∷ all_reloaded codec m

-- The queue that an operation works on: with a file, the same folders with their records read back.
abbrev pub fresh_of : Codec → EnrollQueue → EnrollQueue
fresh_of codec q = if q.on_disk then record q { by_folder = all_reloaded codec q.by_folder } else q

pub reloaded_back :
    (codec : Codec) (r : Application) (w : Written codec r) → reloaded codec r ≡ w.back
reloaded_back codec r w = ap (dict_or r) w.reads

-- What was read back is written and read back in the same way.
pub Written-reloaded :
    (codec : Codec) (r : Application) → Written codec r → Written codec (reloaded codec r)
Written-reloaded codec r w = subst (Written codec) (sym (reloaded_back codec r w)) (record {
  inner = w.inner;
  braced = w.again ∙ w.braced;
  one_line = ap (any is_boundary) w.again ∙ w.one_line;
  back = w.back;
  reads = ap codec.loads w.again ∙ w.reads;
  again = refl;
  same_text = λ k. refl;
})

AllWritten-reloaded :
    (codec : Codec) (m : Dict Application)
    → AllWritten codec m
    → AllWritten codec (all_reloaded codec m)
AllWritten-reloaded codec [] a = tt
AllWritten-reloaded codec ((k, r) ∷ m) (w, a) =
    (Written-reloaded codec r w, AllWritten-reloaded codec m a)

pub AllWritten-insert :
    (codec : Codec) (k : String) (r : Application) (m : Dict Application)
    → Written codec r
    → AllWritten codec m
    → AllWritten codec (insert k r m)
unfolding insert
AllWritten-insert codec k r [] w a = (w, tt)
AllWritten-insert codec k r ((j, v) ∷ m) w (x, a) = elim (Bool-cases (j == k)) [
  | inl e ↦ rw e (w, a)
  | inr e ↦ rw e (x, AllWritten-insert codec k r m w a)
]

pub lookup-reloaded :
    (codec : Codec) (k : String) (m : Dict Application)
    → lookup k (all_reloaded codec m) ≡ maybe_reloaded codec (lookup k m)
unfolding lookup
lookup-reloaded codec k [] = refl
lookup-reloaded codec k ((j, v) ∷ m) = elim (Bool-cases (j == k)) [
  | inl e ↦ rw e refl
  | inr e ↦ rw e (lookup-reloaded codec k m)
]

abbrev Apart : Dict Application → Dict Application → Type 0
Apart acc [] = Unit
Apart acc ((k, r) ∷ m) = (lookup k acc ≡ none) × Apart acc m

lookup-append_new :
    (j k : String) (r : Application) (acc : Dict Application)
    → j ≢ k
    → lookup j acc ≡ none
    → lookup j (acc ++ (k, r) ∷ []) ≡ none
unfolding lookup
lookup-append_new j k r [] n h = ground (arith, eq_iff k j)
lookup-append_new j k r ((i, v) ∷ acc) n h = ground (arith, lookup-append_new j k r acc)

insert-new :
    (k : String) (r : Application) (acc : Dict Application)
    → lookup k acc ≡ none
    → insert k r acc ≡ acc ++ (k, r) ∷ []
unfolding lookup insert
insert-new k r [] h = refl
insert-new k r ((i, v) ∷ acc) h = ground (arith, insert-new k r acc)

Apart-append :
    (k : String) (r : Application) (acc m : Dict Application)
    → lookup k m ≡ none
    → Apart acc m
    → Apart (acc ++ (k, r) ∷ []) m
unfolding lookup
Apart-append k r acc [] h a = tt
Apart-append k r acc ((j, v) ∷ m) h (a, b) = (
  lookup-append_new j k r acc (λ e. ground (arith, eq_iff j k)) a,
  Apart-append k r acc m (ground arith) b,
)

append-step :
    (acc m : Dict Application) (x : String × Application) → (acc ++ x ∷ []) ++ m ≡ acc ++ x ∷ m
append-step [] m x = refl
append-step (y ∷ acc) m x = ap (λ l. y ∷ l) (append-step acc m x)

append_nil : (m : Dict Application) → m ++ [] ≡ m
append_nil [] = refl
append_nil (x ∷ m) = ap (λ l. x ∷ l) (append_nil m)

filed_under :
    (k : String) (r : Application) (acc : Dict Application)
    → k ≢ ""
    → folder_of r ≡ some k
    → lookup k acc ≡ none
    → file_under (folder_of r) r acc ≡ ok (acc ++ (k, r) ∷ [])
filed_under k r acc n e a = rw e (ground (arith, insert-new k r acc a, eq_iff k "", n))

-- A line that a record was written to files the record that is read back.
line_under-written :
    (codec : Codec) (r : Application) (m : Dict Application)
    → Written codec r
    → line_under codec (trim (codec.dumps r)) m
      ≡ file_under (folder_of (reloaded codec r)) (reloaded codec r) m
line_under-written codec r m w =
    ap (λ t. line_under codec t m) (ap trim w.braced ∙ trim-framed b'{' b'}' w.inner refl refl)
    ∙ ap (λ l. loaded_under l m) (ap codec.loads (sym w.braced) ∙ w.reads)
    ∙ ap (λ b. file_under (folder_of b) b m) (sym (reloaded_back codec r w))

load_from-body :
    (codec : Codec) (acc m : Dict Application)
    → Filed (all_reloaded codec m)
    → AllWritten codec m
    → Apart acc (all_reloaded codec m)
    → load_from codec acc (splitlines (body_of codec (values m))) ≡ ok (acc ++ all_reloaded codec m)
unfolding load_from splitlines
load_from-body codec acc [] f ws a = ap ok (sym (append_nil acc))
load_from-body codec acc ((k, r) ∷ m) (n, e, h, f) (w, ws) (a, b) =
    let back = reloaded codec r in
    ap (load_from codec acc) (splitlines-line (codec.dumps r) (body_of codec (values m)) w.one_line)
    ∙ ap (λ first. first >>= λ n. load_from codec n (splitlines (body_of codec (values m))))
        (line_under-written codec r acc w ∙ filed_under k back acc n e a)
    ∙ load_from-body codec (acc ++ (k, back) ∷ []) m f ws
        (Apart-append k back acc (all_reloaded codec m) h b)
    ∙ ap ok (append-step acc (all_reloaded codec m) (k, back))

Filed-reloaded :
    (codec : Codec) (m : Dict Application)
    → Filed m
    → AllWritten codec m
    → Filed (all_reloaded codec m)
Filed-reloaded codec [] f ws = tt
Filed-reloaded codec ((k, r) ∷ m) (n, e, h, f) (w, ws) = (
  n,
  ap (λ b. folder_of b) (reloaded_back codec r w) ∙ w.same_text "folder_id" ∙ e,
  lookup-reloaded codec k m ∙ ap (maybe_reloaded codec) h,
  Filed-reloaded codec m f ws,
)

Apart-nil : (m : Dict Application) → Apart [] m
unfolding lookup
Apart-nil [] = tt
Apart-nil (x ∷ m) = (refl, Apart-nil m)

pub Filed-insert :
    (k : String) (r : Application) (m : Dict Application)
    → Filed m
    → k ≢ ""
    → folder_of r ≡ some k
    → Filed (insert k r m)
unfolding insert lookup
Filed-insert k r [] f n e = (n, e, refl, tt)
Filed-insert k r ((j, v) ∷ m) (a, b, c, f) n e = elim (Bool-cases (j == k)) [
  | inl q ↦ rw q (a, e ∙ ap some (sym ((eq_iff j k).0 q)), c, f)
  | inr q ↦ rw q (
    a,
    b,
    lookup-insert_ne k j r m (λ x. ground (arith, eq_iff j k)) ∙ c,
    Filed-insert k r m f n e,
  )
]

pub Filed-lookup :
    (k : String) (m : Dict Application) {r : Application}
    → Filed m
    → lookup k m ≡ some r
    → (folder_of r ≡ some k) × (k ≢ "")
unfolding lookup
Filed-lookup k [] f h = cc
Filed-lookup k ((j, v) ∷ m) (a, b, c, f) h = elim (Bool-cases (j == k)) [
  | inl q ↦ ground (arith, eq_iff j k)
  | inr q ↦ Filed-lookup k m f (rw q at h)
]

-- Loading the queue file of a queue that is filed, with its records written by `json` on one
-- line each and read back with the same texts, gives the same folders in the same order, each
-- with its record as `json` reads it back, and a queue without a file stays as it is.
pub refresh-Sound :
    (codec : Codec) (q : EnrollQueue) → Sound codec q → refresh codec q ≡ ok (fresh_of codec q)
unfolding refresh
refresh-Sound codec q s = elim (Bool-cases q.on_disk) [
  | inl h ↦
      let f = Filed-reloaded codec q.by_folder s.filed (s.written h) in
      rw
        (
          h,
          s.stored h,
          load_from-body codec [] q.by_folder f (s.written h)
              (Apart-nil (all_reloaded codec q.by_folder)),
        )
        refl
  | inr h ↦ rw h refl
]

fresh_if-Filed :
    (codec : Codec) (q : EnrollQueue) (b : Bool)
    → q.on_disk ≡ b
    → Sound codec q
    → let n = (if b then record q { by_folder = all_reloaded codec q.by_folder } else q) in
      Filed n.by_folder
      × (n.on_disk ≡ true → AllWritten codec n.by_folder)
      × (n.on_disk ≡ q.on_disk)
fresh_if-Filed codec q true h s = (
  Filed-reloaded codec q.by_folder s.filed (s.written h),
  λ e. AllWritten-reloaded codec q.by_folder (s.written h),
  refl,
)
fresh_if-Filed codec q false h s = (s.filed, s.written, refl)

-- The queue that an operation works on is filed and written as it should be.
pub fresh_of-Filed :
    (codec : Codec) (q : EnrollQueue)
    → Sound codec q
    → Filed (fresh_of codec q).by_folder
      × ((fresh_of codec q).on_disk ≡ true → AllWritten codec (fresh_of codec q).by_folder)
      × ((fresh_of codec q).on_disk ≡ q.on_disk)
fresh_of-Filed codec q s = fresh_if-Filed codec q q.on_disk refl s

pub persist-Sound :
    (codec : Codec) (q : EnrollQueue) (m : Dict Application)
    → Filed m
    → (q.on_disk ≡ true → AllWritten codec m)
    → Sound codec (persist codec q m)
unfolding persist
persist-Sound codec q m f ws = record { filed = f; written = ws; stored = λ h. rw h refl }
