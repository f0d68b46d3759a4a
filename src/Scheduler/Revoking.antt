-- ===== src/Scheduler/Revoking.antt =====
-- A revocation takes effect once: `ReviveStore.consume` of scheduler/revive.py, in the ticks of
-- scheduler/daemon.py.
-- No entry stands under a key.
use fleet_graph.Common.{
  Bool, Bool-cases, List, Option, Result, [], err, false, inl, inr, none, ok, refl, some, subst,
  sym, true, ◌∷◌, ◌≡◌,
}
use fleet_graph.Common.Order.{codes_leb}
use fleet_graph.Graphs.Guards.{Text, text_eq}
use fleet_graph.Scheduler.Revive.{
  ReviveError, ReviveRecord, ReviveStore, as_raw, as_raws, consume, consume_found, get, get_record,
  load, load_entry, load_from, place, pop, sorted, validate_revive, with_folder,
}

abbrev Absent : {A : Type 0} → Text → List (Text × A) → Type 0
Absent key [] = Unit
Absent key ((here, a) ∷ more) = (text_eq here key ≡ false) × Absent key more

pop-Absent : (key : Text) (xs : List (Text × ReviveRecord)) → Absent key (pop key xs)
pop-Absent key [] = tt
pop-Absent key ((here, r) ∷ more) = elim (Bool-cases (text_eq here key)) [
  | inl h ↦ rw h (pop-Absent key more)
  | inr h ↦ rw h (h, pop-Absent key more)
]

place-Absent :
    (key other : Text) (r : ReviveRecord) (xs : List (Text × ReviveRecord))
    → text_eq other key ≡ false
    → Absent key xs
    → Absent key (place other r xs)
place-Absent key other r [] h a = (h, tt)
place-Absent key other r ((here, q) ∷ more) h (g, a) = elim (Bool-cases (codes_leb other here)) [
  | inl le ↦ rw le (h, (g, a))
  | inr gt ↦ rw gt (g, place-Absent key other r more h a)
]

sorted-Absent :
    (key : Text) (xs : List (Text × ReviveRecord)) → Absent key xs → Absent key (sorted xs)
sorted-Absent key [] a = tt
sorted-Absent key ((here, r) ∷ more) (h, a) =
    place-Absent key here r (sorted more) h (sorted-Absent key more a)

entry-absent :
    (key here : Text) (loaded : Result ReviveError ReviveRecord) (rest : List (Text × ReviveRecord))
    → text_eq here key ≡ false
    → get_record key rest ≡ none
    → get_record key (load_entry here loaded rest) ≡ none
entry-absent key here (err e) rest h g = g
entry-absent key here (ok r) rest h g = rw h g

load-Absent :
    (key : Text) (xs : List (Text × ReviveRecord))
    → Absent key xs
    → get_record key (load_from (as_raws xs)) ≡ none
unfolding load_from
load-Absent key [] a = refl
load-Absent key ((here, r) ∷ more) (h, a) =
    entry-absent key here (validate_revive (with_folder here (as_raw r))) (load_from (as_raws more))
      h (load-Absent key more a)

-- What a consumption leaves of the record, if it comes through.
abbrev pub taken_of : Result ReviveError (Option ReviveRecord) → Bool
taken_of (ok (some r)) = true
taken_of (ok none) = false
taken_of (err e) = false

-- A consumption that comes through leaves no record under the key.
abbrev pub Cleared : Text → ReviveStore × Result ReviveError (Option ReviveRecord) → Type 0
Cleared key (store, err e) = Unit
Cleared key (store, ok taken) = get key store ≡ none

found-Cleared :
    (writes logs : Bool) (key : Text) (r : ReviveRecord) (store : ReviveStore)
    → Cleared key (consume_found writes logs key (some r) store)
unfolding get load
found-Cleared false logs key r store = tt
found-Cleared true false key r store = tt
found-Cleared true true key r store =
    load-Absent key (sorted (pop key (load store)))
      (sorted-Absent key (pop key (load store)) (pop-Absent key (load store)))

pub consume-Cleared :
    (writes logs : Bool) (key : Text) (r : ReviveRecord) (store : ReviveStore)
    → get key store ≡ some r
    → Cleared key (consume writes logs key store)
unfolding consume
consume-Cleared writes logs key r store found =
    subst (λ o. Cleared key (consume_found writes logs key o store)) (sym found)
      (found-Cleared writes logs key r store)
