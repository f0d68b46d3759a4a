-- ===== src/GoalEnroll/Queue/Submitting.antt =====
-- What submitting to the enrollment queue of goal_enroll/queue.py promises.
use fleet_graph.Common.{
  Bool-cases, Option, String, ap, inl, inr, none, ok, refl, some, true, ◌∙◌, ◌≡◌, ◌≢◌,
}
use fleet_graph.Common.Dict.{lookup, lookup-insert_ne, lookup-insert_self}
use fleet_graph.Common.Json.{Json}
use fleet_graph.GoalEnroll.Queue.{
  Application, Codec, EnrollQueue, folder_of, fresh_record, is_pending, persist, submit, submitted,
  text_of, with_pending,
}
use fleet_graph.GoalEnroll.Queue.Filing.{
  AllWritten-insert, Filed-insert, Sound, Written, fresh_of, persist-Sound, refresh-Sound,
}

-- Submitting to a sound queue is submitting to the queue that was loaded.
pub submit_of :
    (codec : Codec) (now folder_id : String) (entry : Application) (q : EnrollQueue)
    → Sound codec q
    → submit codec now folder_id entry q
      ≡ ok (submitted codec now folder_id entry (fresh_of codec q))
unfolding submit
submit_of codec now folder_id entry q s = rw (refresh-Sound codec q s) refl

fresh_status :
    (now folder_id : String) (entry : Application)
    → lookup "status" (fresh_record now folder_id entry) ≡ some (Json.str "pending")
fresh_status now folder_id entry =
    lookup-insert_ne "history" "status" _ _ (λ e. cc)
    ∙ lookup-insert_ne "submitted_at" "status" _ _ (λ e. cc)
    ∙ lookup-insert_self "status" _ _

fresh_facts :
    (now folder_id : String) (entry : Application)
    → (folder_of (fresh_record now folder_id entry) ≡ some folder_id)
      × (is_pending (some (fresh_record now folder_id entry)) ≡ true)
fresh_facts now folder_id entry = (
  ap text_of (
      lookup-insert_ne "history" "folder_id" _ _ (λ e. cc)
      ∙ lookup-insert_ne "submitted_at" "folder_id" _ _ (λ e. cc)
      ∙ lookup-insert_ne "status" "folder_id" _ _ (λ e. cc)
      ∙ lookup-insert_self "folder_id" (Json.str folder_id) entry),
  rw (is_pending, fresh_status now folder_id entry) refl,
)

pending_there :
    (o : Option Application)
    → is_pending o ≡ true
    → (r : Application) × (o ≡ some r) × (is_pending (some r) ≡ true)
pending_there none h = cc
pending_there (some r) h = (r, refl, h)

again_of :
    (codec : Codec) (later folder_id : String) (again r : Application) (n : EnrollQueue)
    → lookup folder_id n.by_folder ≡ some r
    → is_pending (some r) ≡ true
    → submitted codec later folder_id again n ≡ (n, with_pending true r)
unfolding submitted
again_of codec later folder_id again r n f h = rw (f, h) refl

-- What submitting to a queue that is as it should be leaves: a sound queue where the folder's
-- application is pending.
submitted-Pending :
    (codec : Codec) (now folder_id : String) (entry : Application) (q : EnrollQueue)
    → Sound codec q
    → folder_id ≢ ""
    → Written codec (fresh_record now folder_id entry)
    → let n = (submitted codec now folder_id entry q).0 in
      Sound codec n
      × (r : Application) × (lookup folder_id n.by_folder ≡ some r)
      × (is_pending (some r) ≡ true)
unfolding submitted persist
submitted-Pending codec now folder_id entry q s k w =
    elim (Bool-cases (is_pending (lookup folder_id q.by_folder))) [
      | inl h ↦ let (r, f, d) = pending_there (lookup folder_id q.by_folder) h in rw h (s, r, f, d)
      | inr h ↦
          let (e, d) = fresh_facts now folder_id entry in
          rw h (
            persist-Sound codec q _ (Filed-insert folder_id _ q.by_folder s.filed k e)
                (λ on. AllWritten-insert codec folder_id _ q.by_folder w (s.written on)),
            fresh_record now folder_id entry,
            lookup-insert_self folder_id _ q.by_folder,
            d,
          )
    ]

-- Submitting to a queue that was loaded and is as it should be leaves one where the application is
-- pending, and submitting for the folder again then changes nothing more and answers with it.
pub submitted-idempotent :
    (codec : Codec) (now later folder_id : String) (entry again : Application) (q : EnrollQueue)
    → Sound codec q
    → folder_id ≢ ""
    → Written codec (fresh_record now folder_id entry)
    → let n = (submitted codec now folder_id entry q).0 in
      Sound codec n
      × (r : Application) × (lookup folder_id n.by_folder ≡ some r)
      × (is_pending (some r) ≡ true)
      × (submitted codec later folder_id again n ≡ (n, with_pending true r))
unfolding submitted
submitted-idempotent codec now later folder_id entry again q s k w =
    let (sound, r, f, h) = submitted-Pending codec now folder_id entry q s k w in
    (sound, r, f, h, again_of codec later folder_id again r _ f h)
