-- ===== src/GoalEnroll/Queue/Decisions.antt =====
-- What the enrollment queue of goal_enroll/queue.py promises of its decisions.
use fleet_graph.Common.{
  Bool-cases, Option-cases, String, [], ap, arith, eq_iff, err, false, if◌then◌else◌, inl, inr,
  none, ok, ok_not_err, refl, some, subst, sym, true, ◌∙◌, ◌∷◌, ◌≡◌, ◌≢◌, ◌⊎◌,
}
use fleet_graph.Common.Dict.{Dict, insert, lookup, lookup-insert_ne, lookup-insert_self}
use fleet_graph.Common.Json.{Json}
use fleet_graph.GoalEnroll.Queue.{
  Application, Codec, EnrollQueue, QueueError, append_item, decided, folder_of, history_item,
  history_of, is_pending, persist, text_of, transition_to, with_extra,
}
use fleet_graph.GoalEnroll.Queue.Filing.{
  AllWritten-insert, Filed-insert, Filed-lookup, Sound, Written, all_reloaded, fresh_of,
  fresh_of-Filed, lookup-reloaded, maybe_reloaded, persist-Sound, refresh-Sound, reloaded,
  reloaded_back,
}

-- The fields a decision adds leave the folder, the status and the history alone.
pub record Plain (extra : Dict Json) : Type 0 where
  pub folder : lookup "folder_id" extra ≡ none
  pub status : lookup "status" extra ≡ none

with_extra-lookup :
    (k : String) (extra : Dict Json) (r : Application)
    → lookup k extra ≡ none
    → lookup k (with_extra extra r) ≡ lookup k r
unfolding with_extra lookup
with_extra-lookup k [] r h = refl
with_extra-lookup k ((j, v) ∷ extra) r h =
    with_extra-lookup k extra (insert j v r) (ground arith)
    ∙ lookup-insert_ne j k v r (λ e. ground (arith, eq_iff j k))

decided-folder :
    (now status : String) (extra : Dict Json) (r : Application)
    → Plain extra
    → folder_of (decided now status extra r) ≡ folder_of r
unfolding decided
decided-folder now status extra r p = ap text_of (
    lookup-insert_ne "history" "folder_id" _ _ (λ e. cc)
    ∙ with_extra-lookup "folder_id" extra _ p.folder
    ∙ lookup-insert_ne "status" "folder_id" _ r (λ e. cc))

decided-status :
    (now status : String) (extra : Dict Json) (r : Application)
    → Plain extra
    → lookup "status" (decided now status extra r) ≡ some (Json.str status)
unfolding decided
decided-status now status extra r p =
    lookup-insert_ne "history" "status" _ _ (λ e. cc)
    ∙ with_extra-lookup "status" extra _ p.status
    ∙ lookup-insert_self "status" (Json.str status) r

-- What a decision did to the queue that was loaded.
pub record Decided (codec : Codec) (now folder_id status : String) (extra : Dict Json)
    (q : EnrollQueue) (n : EnrollQueue) (answer : Application) : Type 0 where
  pub existing : Application
  pub found : lookup folder_id q.by_folder ≡ some existing
  pub was_pending : is_pending (some existing) ≡ true
  pub filed : lookup folder_id n.by_folder ≡ some answer
  pub stands : lookup "status" answer ≡ some (Json.str status)
  pub history :
      lookup "history" answer
      ≡ some (Json.arr (append_item (history_of existing) (history_item status (Json.str now))))
  pub others : (k : String) → folder_id ≢ k → lookup k n.by_folder ≡ lookup k q.by_folder
  pub sound : Sound codec n

refused_of :
    (codec : Codec) (now folder_id status : String) (extra : Dict Json) (q : EnrollQueue)
    → Sound codec q
    → is_pending (lookup folder_id (fresh_of codec q).by_folder) ≡ false
    → transition_to codec now folder_id status extra q ≡ err (QueueError.not_pending folder_id)
unfolding transition_to
refused_of codec now folder_id status extra q s h = rw (refresh-Sound codec q s, h) refl

module _ (codec : Codec) (now folder_id status : String) (extra : Dict Json) (p : Plain extra)
    (q : EnrollQueue) (s : Sound codec q)
    (writes : (r : Application)
      → lookup folder_id (fresh_of codec q).by_folder ≡ some r
      → Written codec (decided now status extra r)) where
  abbrev fresh : EnrollQueue
  fresh = fresh_of codec q

  pub decision_of :
      (r : Application)
      → lookup folder_id fresh.by_folder ≡ some r
      → is_pending (some r) ≡ true
      → transition_to codec now folder_id status extra q
        ≡ ok (
          persist codec fresh (insert folder_id (decided now status extra r) fresh.by_folder),
          decided now status extra r,
        )
  unfolding transition_to
  decision_of r f h = rw (refresh-Sound codec q s, f, h) refl

  decided_of :
      (r : Application)
      → lookup folder_id fresh.by_folder ≡ some r
      → is_pending (some r) ≡ true
      → Decided codec now folder_id status extra fresh
          (persist codec fresh (insert folder_id (decided now status extra r) fresh.by_folder))
          (decided now status extra r)
  unfolding persist decided
  decided_of r f h =
      let (good, good_written, _) = fresh_of-Filed codec q s in
      let (e, n) = Filed-lookup folder_id fresh.by_folder good f in
      record {
        existing = r;
        found = f;
        was_pending = h;
        filed = lookup-insert_self folder_id _ fresh.by_folder;
        stands = decided-status now status extra r p;
        history = lookup-insert_self "history" _ _;
        others = λ k d. lookup-insert_ne folder_id k _ fresh.by_folder d;
        sound =
            persist-Sound codec fresh _
              (Filed-insert folder_id _ fresh.by_folder good n
                (decided-folder now status extra r p ∙ e))
              (λ on.
                AllWritten-insert codec folder_id _ fresh.by_folder (writes r f) (good_written on));
      }

  -- From a queue that is filed, with its records written by `json` on one line each and read
  -- back with the same texts, a decision that adds no folder and no status, and whose record is
  -- written so too, files the pending application of the loaded queue under its new status with
  -- one more history item and leaves the other folders and the queue sound, or is refused where
  -- none is pending.
  pub transition_to-cases :
      ((n : EnrollQueue) × (answer : Application) × (transition_to codec now folder_id status extra
            q
          ≡ ok (n, answer))
        × Decided codec now folder_id status extra fresh n answer)
      ⊎ ((is_pending (lookup folder_id fresh.by_folder) ≡ false)
          × (transition_to codec now folder_id status extra q
              ≡ err (QueueError.not_pending folder_id)))
  transition_to-cases = elim (Option-cases (lookup folder_id fresh.by_folder)) [
    | inl none_there ↦ inr (
      ap is_pending none_there,
      refused_of codec now folder_id status extra q s (ap is_pending none_there),
    )
    | inr (r, f) ↦ elim (Bool-cases (is_pending (some r))) [
      | inl h ↦ inl (_, _, decision_of r f h, decided_of r f h)
      | inr h ↦ inr (
        ap is_pending f ∙ h,
        refused_of codec now folder_id status extra q s (ap is_pending f ∙ h),
      )
    ]
  ]

not_pending_status :
    (status : String) (r : Application)
    → status ≢ "pending"
    → text_of (lookup "status" r) ≡ some status
    → is_pending (some r) ≡ false
not_pending_status status r d h = rw (is_pending, h) (ground (arith, eq_iff status "pending"))

-- The status that was filed is the one that the next operation finds.
settled-fresh :
    (codec : Codec) (folder_id status : String) (n : EnrollQueue) (answer : Application)
    → Sound codec n
    → Written codec answer
    → status ≢ "pending"
    → lookup folder_id n.by_folder ≡ some answer
    → lookup "status" answer ≡ some (Json.str status)
    → is_pending (lookup folder_id (fresh_of codec n).by_folder) ≡ false
settled-fresh codec folder_id status n answer s w d filed stands = elim (Bool-cases n.on_disk) [
  | inl h ↦
      ap
        (λ b. is_pending (
          lookup folder_id
            (if b then record n { by_folder = all_reloaded codec n.by_folder } else n).by_folder))
        h
      ∙ ap is_pending
          (lookup-reloaded codec folder_id n.by_folder ∙ ap (maybe_reloaded codec) filed)
      ∙ not_pending_status status (reloaded codec answer) d (
          ap (λ b. text_of (lookup "status" b)) (reloaded_back codec answer w)
          ∙ w.same_text "status"
          ∙ ap text_of stands)
  | inr h ↦
      ap
        (λ b. is_pending (
          lookup folder_id
            (if b then record n { by_folder = all_reloaded codec n.by_folder } else n).by_folder))
        h
      ∙ ap is_pending filed
      ∙ not_pending_status status answer d (ap text_of stands)
]

-- On a queue that is filed, with its records written by `json` on one line each and read back
-- with the same texts, after a decision under a status other than pending that adds no folder
-- and no status and whose record is written so too, a second one on the same folder is refused
-- as not pending, whatever it decides.
pub transition_to-final :
    (codec : Codec) (now folder_id status : String) (extra : Dict Json) (q n : EnrollQueue)
    (answer : Application)
    → Plain extra
    → Sound codec q
    → ((r : Application)
        → lookup folder_id (fresh_of codec q).by_folder ≡ some r
        → Written codec (decided now status extra r))
    → status ≢ "pending"
    → transition_to codec now folder_id status extra q ≡ ok (n, answer)
    → (later other : String) (more : Dict Json)
    → transition_to codec later folder_id other more n ≡ err (QueueError.not_pending folder_id)
transition_to-final codec now folder_id status extra q n answer p s writes d e later other more =
    elim (Option-cases (lookup folder_id (fresh_of codec q).by_folder)) [
      | inl none_there ↦ absurd (
          ok_not_err
            (sym e ∙ refused_of codec now folder_id status extra q s (ap is_pending none_there)))
      | inr (r, f) ↦ elim (Bool-cases (is_pending (some r))) [
        | inr h ↦ absurd (
            ok_not_err
              (sym e ∙ refused_of codec now folder_id status extra q s (ap is_pending f ∙ h)))
        | inl h ↦
            let m =
              (persist codec (fresh_of codec q)
                (insert folder_id (decided now status extra r) (fresh_of codec q).by_folder)) in
            let g = decided_of codec now folder_id status extra p q s writes r f h in
            let same : m ≡ n =
              cc (e, decision_of codec now folder_id status extra p q s writes r f h) in
            subst
              (λ x.
                transition_to codec later folder_id other more x
                ≡ err (QueueError.not_pending folder_id))
              same
              (refused_of codec later folder_id other more m g.sound (
                settled-fresh codec folder_id status m (decided now status extra r) g.sound
                  (writes r f) d g.filed g.stands))
      ]
    ]
