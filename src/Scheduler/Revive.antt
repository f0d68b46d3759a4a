-- ===== src/Scheduler/Revive.antt =====
-- The records that overturn a finished line: scheduler/revive.py. A text of a raw entry is what
-- `str(value or "")` gives; a number below 1 is 0. A file that cannot be read is empty, as are the
-- entries that are not objects.
use fleet_graph.Common.{
  Bool, List, Option, Result, [], err, false, get_or, if◌then◌else◌, ltb, none, ok, some, true, ℕ,
  ◌++◌, ◌||◌, ◌∷◌,
}
use fleet_graph.Common.Order.{codes_leb}
use fleet_graph.GoalLine.Verdict.{is_nil, trim}
use fleet_graph.Graphs.Guards.{Text, text_eq}

pub record ReviveRecord : Type 0 where
  pub folder_id : Text
  pub who : Text
  pub basis : Text
  pub generation : ℕ
  pub since : Text
  pub reason : Text

-- What `record.get("generation")` holds.
pub data RawGeneration : Type 0 where
  missing : RawGeneration
  no_integer : RawGeneration
  integer : ℕ → RawGeneration

pub record RawRevive : Type 0 where
  pub folder_id : Option Text
  pub who : Text
  pub basis : Text
  pub generation : RawGeneration
  pub since : Text
  pub reason : Text

pub data ReviveError : Type 0 where
  missing_field no_folder no_number below_one not_written : ReviveError

abbrev pub blank : Text → Bool
blank text = is_nil (trim text)

abbrev pub is_missing : RawGeneration → Bool
is_missing RawGeneration.missing = true
is_missing _ = false

abbrev pub record_of : RawRevive → ℕ → ReviveRecord
record_of raw generation = record {
  folder_id = trim (get_or raw.folder_id []);
  who = trim raw.who;
  basis = trim raw.basis;
  generation = generation;
  since = trim raw.since;
  reason = trim raw.reason;
}

abbrev pub numbered : RawRevive → RawGeneration → Result ReviveError ReviveRecord
numbered raw RawGeneration.missing = err ReviveError.missing_field
numbered raw RawGeneration.no_integer = err ReviveError.no_number
numbered raw (RawGeneration.integer n) =
    if ltb n 1 then err ReviveError.below_one else ok (record_of raw n)

unfoldable pub validate_revive : RawRevive → Result ReviveError ReviveRecord
validate_revive raw =
    if blank raw.who || blank raw.basis || is_missing raw.generation || blank raw.since
    then err ReviveError.missing_field
    else if blank (get_or raw.folder_id [])
    then err ReviveError.no_folder
    else numbered raw raw.generation

-- The two files; the second only grows.
pub record ReviveStore : Type 0 where
  pub active : List (Text × RawRevive)
  pub history : List ReviveRecord

abbrev pub as_raw : ReviveRecord → RawRevive
as_raw r = record {
  folder_id = some r.folder_id;
  who = r.who;
  basis = r.basis;
  generation = RawGeneration.integer r.generation;
  since = r.since;
  reason = r.reason;
}

-- entry.setdefault("folder_id", folder_id)
abbrev pub with_folder : Text → RawRevive → RawRevive
with_folder key raw = record raw { folder_id = some (get_or raw.folder_id key) }

-- What is left of the surface: the entries that are valid.
abbrev pub load_entry :
    Text → Result ReviveError ReviveRecord → List (Text × ReviveRecord) → List (Text × ReviveRecord)
load_entry key (err e) rest = rest
load_entry key (ok r) rest = (key, r) ∷ rest

unfoldable pub load_from : List (Text × RawRevive) → List (Text × ReviveRecord)
load_from [] = []
load_from ((key, raw) ∷ more) =
    load_entry key (validate_revive (with_folder key raw)) (load_from more)

unfoldable pub load : ReviveStore → List (Text × ReviveRecord)
load store = load_from store.active

abbrev pub get_record : Text → List (Text × ReviveRecord) → Option ReviveRecord
get_record key [] = none
get_record key ((here, r) ∷ more) =
    let later = get_record key more in if text_eq here key then some r else later

unfoldable pub get : Text → ReviveStore → Option ReviveRecord
get key store = get_record key (load store)

abbrev pub put : Text → ReviveRecord → List (Text × ReviveRecord) → List (Text × ReviveRecord)
put key r [] = (key, r) ∷ []
put key r ((here, old) ∷ more) =
    let rest = put key r more in if text_eq here key then (here, r) ∷ more else (here, old) ∷ rest

abbrev pub pop : Text → List (Text × ReviveRecord) → List (Text × ReviveRecord)
pop key [] = []
pop key ((here, r) ∷ more) =
    let rest = pop key more in if text_eq here key then rest else (here, r) ∷ rest

-- sorted(revokes.items())
abbrev pub place : Text → ReviveRecord → List (Text × ReviveRecord) → List (Text × ReviveRecord)
place key r [] = (key, r) ∷ []
place key r ((here, other) ∷ more) =
    let rest = place key r more in
    if codes_leb key here then (key, r) ∷ (here, other) ∷ more else (here, other) ∷ rest

abbrev pub sorted : List (Text × ReviveRecord) → List (Text × ReviveRecord)
sorted [] = []
sorted ((key, r) ∷ more) = place key r (sorted more)

abbrev pub as_raws : List (Text × ReviveRecord) → List (Text × RawRevive)
as_raws [] = []
as_raws ((key, r) ∷ more) = (key, as_raw r) ∷ as_raws more

-- A file that is written anew: a failure leaves the old one, and is raised.
abbrev pub saved :
    Bool → List (Text × ReviveRecord) → ReviveStore → ReviveStore × Result ReviveError Unit
saved false revokes store = (store, err ReviveError.not_written)
saved true revokes store = (record store { active = as_raws (sorted revokes) }, ok tt)

abbrev pub write_valid :
    Bool → Result ReviveError ReviveRecord → ReviveStore → ReviveStore × Result ReviveError Unit
write_valid writes (err e) store = (store, err e)
write_valid writes (ok r) store = saved writes (put r.folder_id r (load store)) store

unfoldable pub write : Bool → ReviveRecord → ReviveStore → ReviveStore × Result ReviveError Unit
write writes r store = write_valid writes (validate_revive (as_raw r)) store

abbrev pub logged :
    Bool → ReviveRecord → ReviveStore → ReviveStore × Result ReviveError (Option ReviveRecord)
logged false r store = (store, err ReviveError.not_written)
logged true r store = (record store { history = store.history ++ (r ∷ []) }, ok (some r))

abbrev pub after_saved :
    Bool
    → ReviveRecord
    → ReviveStore × Result ReviveError Unit
    → ReviveStore × Result ReviveError (Option ReviveRecord)
after_saved writes r (store, err e) = (store, err e)
after_saved writes r (store, ok done) = logged writes r store

abbrev pub consume_found :
    Bool
    → Bool
    → Text
    → Option ReviveRecord
    → ReviveStore
    → ReviveStore × Result ReviveError (Option ReviveRecord)
consume_found writes logs key none store = (store, ok none)
consume_found writes logs key (some r) store =
    after_saved logs r (saved writes (pop key (load store)) store)

-- A record that takes effect moves to the history.
unfoldable pub consume :
    Bool → Bool → Text → ReviveStore → ReviveStore × Result ReviveError (Option ReviveRecord)
consume writes logs key store = consume_found writes logs key (get key store) store
