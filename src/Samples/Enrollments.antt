-- ===== src/Samples/Enrollments.antt =====
-- The theorems on the enrollment queue at a concrete queue.
use fleet_graph.Common.{
  List, [], err, false, if◌then◌else◌, ok, refl, some, some_injective, subst, true, ℕ, ◌∷◌, ◌≡◌,
  ◌⊎◌,
}
use fleet_graph.Common.Dict.{Dict, insert, lookup}
use fleet_graph.Common.Json.{Json}
use fleet_graph.Common.Text.{codes, splitlines}
use fleet_graph.GoalEnroll.Queue.{
  Application, Codec, EnrollQueue, Loaded, QueueError, append_item, decided, fresh_record,
  is_pending, load_from, persist, pointer, refresh, submit, submitted, transition_to, with_extra,
  with_pending,
}
use fleet_graph.GoalEnroll.Queue.Decisions.{
  Decided, Plain, transition_to-cases, transition_to-final,
}
use fleet_graph.GoalEnroll.Queue.Filing.{Sound, Written, fresh_of, persist-Sound, refresh-Sound}
use fleet_graph.GoalLine.Verdict.{trim}
use fleet_graph.Graphs.Guards.{text_eq}

abbrev application : Application
application = ("folder_id", Json.str "f1") ∷ ("goal", Json.str "ship") ∷ []

abbrev pointed : Dict Json
pointed = pointer "supervisor" "ref-1"

-- The two records that the runs write, the text of each, and what `json` makes of these texts.
abbrev applied : Application
applied = fresh_record "t1" "f1" application

abbrev admitted : Application
admitted = decided "t2" "admitted" pointed applied

abbrev first_text : List ℕ
first_text = codes "{\"folder_id\": \"f1\", \"status\": \"pending\"}"

abbrev second_text : List ℕ
second_text = codes "{\"folder_id\": \"f1\", \"status\": \"admitted\"}"

abbrev json : Codec
json = record {
  dumps = λ r. if is_pending (some r) then first_text else second_text;
  loads = λ text.
      if text_eq text first_text
      then Loaded.dict applied
      else if text_eq text second_text
      then Loaded.dict admitted
      else Loaded.undecodable;
}

applied-Written : Written json applied
unfolding codes lookup insert
applied-Written = record {
  inner = codes "\"folder_id\": \"f1\", \"status\": \"pending\"";
  braced = refl;
  one_line = refl;
  back = applied;
  reads = refl;
  again = refl;
  same_text = λ k. refl;
}

admitted-Written : Written json admitted
unfolding codes lookup insert decided with_extra append_item
admitted-Written = record {
  inner = codes "\"folder_id\": \"f1\", \"status\": \"admitted\"";
  braced = refl;
  one_line = refl;
  back = admitted;
  reads = refl;
  again = refl;
  same_text = λ k. refl;
}

abbrev empty : EnrollQueue
empty = record { on_disk = true; by_folder = []; queue_file = [] }

-- The queue with the one application on file.
abbrev one : EnrollQueue
one = persist json empty (("f1", applied) ∷ [])

one-Sound : Sound json one
unfolding persist lookup insert
one-Sound =
    persist-Sound json empty (("f1", applied) ∷ []) ((λ e. cc), refl, refl, tt)
      (λ on. (applied-Written, tt))

submits : submit json "t1" "f1" application empty ≡ ok (one, with_pending false applied)
unfolding submit submitted refresh load_from insert lookup persist
submits = refl

refresh-Sound_example : refresh json one ≡ ok (fresh_of json one)
refresh-Sound_example = refresh-Sound json one one-Sound

-- A text with a line separator inside is cut in two, and nothing more can be read.
abbrev separated : EnrollQueue
separated = record {
  on_disk = true;
  by_folder = [];
  queue_file = (b'{' ∷ 8232 ∷ b'}' ∷ b'\n' ∷ []);
}

cut_in_two : refresh json separated ≡ err QueueError.undecodable_line
unfolding refresh splitlines trim codes
cut_in_two = refl

pointed-Plain : Plain pointed
unfolding lookup
pointed-Plain = record { folder = refl; status = refl }

writes :
    (r : Application)
    → lookup "f1" (fresh_of json one).by_folder ≡ some r
    → Written json (decided "t2" "admitted" pointed r)
unfolding persist lookup codes insert
writes r e =
    subst (λ x. Written json (decided "t2" "admitted" pointed x)) (some_injective e)
      admitted-Written

abbrev two : EnrollQueue
two = persist json (fresh_of json one) (("f1", admitted) ∷ [])

admits : transition_to json "t2" "f1" "admitted" pointed one ≡ ok (two, admitted)
unfolding transition_to refresh load_from splitlines trim codes insert lookup persist decided
    with_extra append_item
admits = refl

transition_to-cases_example :
    ((n : EnrollQueue) × (answer : Application) × (transition_to json "t2" "f1" "admitted" pointed
          one
        ≡ ok (n, answer))
      × Decided json "t2" "f1" "admitted" pointed (fresh_of json one) n answer)
    ⊎ ((is_pending (lookup "f1" (fresh_of json one).by_folder) ≡ false)
        × (transition_to json "t2" "f1" "admitted" pointed one ≡ err (QueueError.not_pending "f1")))
transition_to-cases_example =
    transition_to-cases json "t2" "f1" "admitted" pointed pointed-Plain one one-Sound writes

transition_to-final_example :
    transition_to json "t3" "f1" "rejected" pointed two ≡ err (QueueError.not_pending "f1")
transition_to-final_example =
    transition_to-final json "t2" "f1" "admitted" pointed one two admitted pointed-Plain one-Sound
      writes (λ e. cc) admits "t3" "rejected" pointed
