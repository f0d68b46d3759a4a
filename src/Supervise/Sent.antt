-- ===== src/Supervise/Sent.antt =====
-- What reaches the client, and what the guards on the way to it say.
use fleet_graph.Common.{
  Bool, Option, Result, String, [], ap, arith, err, false, get_or, if◌then◌else◌, is_some, none,
  not, ok, ok_injective, refl, some, sym, true, ◌==◌, ◌||◌, ◌∙◌, ◌≡◌,
}
use fleet_graph.Common.Decimal.{concat}
use fleet_graph.Common.Dict.{lookup}
use fleet_graph.Common.Json.{Fields}
use fleet_graph.Supervise.{Fault, PreauthDeps, ReleaseEvaluation}
use fleet_graph.Supervise.Acting.{
  Client, Refusal, Release, act_card, after_publish, carried, folder_id_of, publish_decision,
  publish_release_decision, release_of, unclassified,
}
use fleet_graph.Supervise.Intake.{Event, IntakeFacts, Report, text_at}
use fleet_graph.Supervise.Judging.{Classification, Classified, card_of, git_target_ref, ok_by_name}

published-release :
    (has_client : Bool) (e : ReleaseEvaluation) (card question key : String) {r : Release}
    → publish_release_decision has_client e card question key ≡ ok r
    → (e.granted ≡ true) × (release_of e card question key ≡ r)
unfolding publish_release_decision
published-release has_client e card question key h = ground arith

sent-published :
    (client : Client) (outcome : Result Refusal Release) {r : Release}
    → (after_publish client outcome).sent ≡ some r
    → outcome ≡ ok r
sent-published client (err e) h = cc
sent-published client (ok release) h = cc

pub publish_decision-sent :
    (deps : PreauthDeps) (client : Client) (event : Event) (card : String) (c : Classification)
    (evaluation : Option ReleaseEvaluation) {r : Release}
    → (publish_decision deps client event card
        (record { classification = c; preauth_evaluation = evaluation })).sent
      ≡ some r
    → (c ≡ Classification.preauth_release)
      × (release_of
            (carried evaluation)
            card
            (text_at deps "question_note_id" event.payload)
            (concat "supervisor-preauth:" event.key)
          ≡ r)
publish_decision-sent deps client event card Classification.needs_human evaluation h = cc
publish_decision-sent deps client event card Classification.recommend_reject evaluation h = cc
publish_decision-sent deps client event card Classification.preauth_release evaluation h =
    (refl, (published-release _ _ _ _ _ (sent-published client _ h)).1)

abbrev pub identity_bound : Report → Bool
identity_bound report = get_or (lookup "identity_binding" (ok_by_name report.assertions [])) false

pub text_unless-given :
    (b : Bool) (x : String)
    → ((if b then "" else x) == "") ≡ false
    → (b ≡ false) × ((if b then "" else x) ≡ x)
text_unless-given true x h = cc
text_unless-given false x h = (refl, refl)

second_held : (a b c : Bool) → (not a || not b || c) ≡ false → b ≡ true
second_held a b c h = ground arith

-- A target ref that is there comes from a development whose identity binding held.
pub target-anchored :
    (report : Report)
    → (git_target_ref report == "") ≡ false
    → (identity_bound report ≡ true)
      × (git_target_ref report ≡ concat "refs/heads/dd/" report.target)
target-anchored report h =
    let (clear, same) = text_unless-given _ _ h in
    (second_held (report.kind == "development") _ _ clear, same)

pub is_some-none : (o : Option Fields) → is_some o ≡ false → o ≡ none
is_some-none none h = refl
is_some-none (some m) h = cc

pub act_card-given :
    (deps : PreauthDeps) (event : Event) (facts : IntakeFacts) {card : String}
    → (card_of deps event facts == "") ≡ false
    → act_card deps event facts ≡ ok card
    → card_of deps event facts ≡ card
act_card-given deps event facts given_card h = ok_injective (
    sym (
      ap (λ b. if b then folder_id_of deps event facts else ok (card_of deps event facts))
        given_card)
    ∙ h)

human_not_release : Classification.needs_human ≡ Classification.preauth_release → ⊥
human_not_release h = cc

pub unless_thin-released :
    (thin : Bool) (r : Result Fault Classified) {c : Classified}
    → (if thin then ok unclassified else r) ≡ ok c
    → c.classification ≡ Classification.preauth_release
    → r ≡ ok c
unless_thin-released true r {c} h released =
    elim (human_not_release (ap (λ k. k.classification) (ok_injective h) ∙ released)) [ ]
unless_thin-released false r h released = h
