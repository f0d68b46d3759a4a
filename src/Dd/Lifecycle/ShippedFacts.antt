-- ===== src/Dd/Lifecycle/ShippedFacts.antt =====
-- What the shipped contract says, for stages and edges that are not fixed.
use fleet_graph.Common.{
  Bool-cases, In, List, Option-cases, String, [], arith, eq_iff, false, foldl, inl, inr, ok, refl,
  some, subst, sym, true, ◌==◌, ◌∷◌, ◌≡◌, ◌≢◌, ◌⊎◌,
}
use fleet_graph.Common.Dict.{Dict, contains, keys, lookup, lookup-insert}
use fleet_graph.Dd.Lifecycle.{
  Contract, RawStage, Stage, Transition, decode_stage, events_from, stages, transitions,
}
use fleet_graph.Dd.Lifecycle.Shipped.{shipped}
use fleet_graph.Dd.Lifecycle.Spine.{
  artifact_consumers, artifact_producers, artifact_successor, carried, is_terminal, spine,
}
use fleet_graph.Dd.Lifecycle.{add_stage}

abbrev HasIds : Dict Stage → Type 0
HasIds m = (k : String) (stage : Stage) → lookup k m ≡ some stage → stage.id ≡ k

add_stage-HasIds : (m : Dict Stage) (raw : RawStage) → HasIds m → HasIds (add_stage m raw)
unfolding add_stage decode_stage
add_stage-HasIds m raw h k stage e =
    ground (arith, lookup-insert raw.id k (decode_stage raw) m, eq_iff raw.id k, h k stage)

stages_from-HasIds :
    (raws : List RawStage) (m : Dict Stage) → HasIds m → HasIds (foldl add_stage m raws)
stages_from-HasIds [] m h = h
stages_from-HasIds (raw ∷ raws) m h =
    stages_from-HasIds raws (add_stage m raw) (add_stage-HasIds m raw h)

-- A stage is filed under its own id.
pub stages-HasIds :
    (c : Contract) (k : String) (stage : Stage) → lookup k (stages c) ≡ some stage → stage.id ≡ k
unfolding stages
stages-HasIds c = stages_from-HasIds c.stages [] (λ k stage e. unfold lookup in cc e)

-- One of the pairs.
abbrev pub Holds : {V : Type 0} → String → V → Dict V → Type 0
Holds k v [] = ⊥
Holds k v ((j, w) ∷ m) = ((j ≡ k) × (w ≡ v)) ⊎ Holds k v m

pub lookup-In {ℓ} :
    {V : Type ℓ} (k : String) (m : Dict V) {v : V} → lookup k m ≡ some v → In k (keys m)
unfolding lookup
lookup-In k [] e = cc
lookup-In k ((j, w) ∷ m) e = elim (Bool-cases (j == k)) [
  | inl q ↦ inl ((eq_iff j k).0 q)
  | inr q ↦ inr (lookup-In k m (rw q at e))
]

-- What a dictionary holds under a key is one of its pairs.
pub lookup-Pair : {V : Type 0} (k : String) (m : Dict V) {v : V} → lookup k m ≡ some v → Holds k v m
unfolding lookup
lookup-Pair k [] e = cc
lookup-Pair k ((j, w) ∷ m) e = elim (Bool-cases (j == k)) [
  | inl q ↦ inl ((eq_iff j k).0 q, ground (arith, q))
  | inr q ↦ inr (lookup-Pair k m (rw q at e))
]

abbrev IsEdge : Transition → String → String → String → Type 0
IsEdge t source event target = (t.source ≡ source) × (t.event ≡ event) × (t.target ≡ target)

-- The five edges that a verdict steers.
pub shipped-edges :
    (t : Transition)
    → In t (transitions shipped)
    → IsEdge t "implement" "success" "continuous_review"
      ⊎ IsEdge t "continuous_review" "REJECT" "implement"
      ⊎ IsEdge t "continuous_review" "APPROVE" "final_review"
      ⊎ IsEdge t "final_review" "REJECT" "implement"
      ⊎ IsEdge t "final_review" "APPROVE" "acceptance"
unfolding transitions shipped
shipped-edges t (inl e) = inl (ground arith)
shipped-edges t (inr (inl e)) = inr (inl (ground arith))
shipped-edges t (inr (inr (inl e))) = inr (inr (inl (ground arith)))
shipped-edges t (inr (inr (inr (inl e)))) = inr (inr (inr (inl (ground arith))))
shipped-edges t (inr (inr (inr (inr (inl e))))) = inr (inr (inr (inr (ground arith))))
shipped-edges t (inr (inr (inr (inr (inr e))))) = elim e [ ]

abbrev pub shipped_spine : Dict String
shipped_spine =
    ("configure", "implement")
    ∷ ("implement", "continuous_review")
    ∷ ("continuous_review", "final_review")
    ∷ ("acceptance", "human_gate")
    ∷ ("human_gate", "merger")
    ∷ []

pub spine-shipped : spine shipped ≡ ok shipped_spine
unfolding spine shipped stages artifact_successor lookup carried artifact_producers
    artifact_consumers
spine-shipped = refl

terminal_names :
    (is_terminal shipped "configure" ≡ false)
    × (is_terminal shipped "implement" ≡ false)
    × (is_terminal shipped "continuous_review" ≡ false)
    × (is_terminal shipped "final_review" ≡ false)
    × (is_terminal shipped "acceptance" ≡ false)
    × (is_terminal shipped "human_gate" ≡ false)
unfolding is_terminal shipped stages artifact_successor events_from transitions lookup carried
    artifact_producers artifact_consumers
terminal_names = (refl, refl, refl, refl, refl, refl)

pub is_terminal-merger : is_terminal shipped "merger" ≡ true
unfolding is_terminal shipped stages artifact_successor events_from transitions lookup carried
    artifact_producers artifact_consumers
is_terminal-merger = refl

pub In-stage_names :
    (k : String)
    → In k (keys (stages shipped))
    → ("configure" ≡ k)
      ⊎ ("implement" ≡ k)
      ⊎ ("continuous_review" ≡ k)
      ⊎ ("final_review" ≡ k)
      ⊎ ("acceptance" ≡ k)
      ⊎ ("human_gate" ≡ k)
      ⊎ ("merger" ≡ k)
unfolding stages shipped
In-stage_names k (inl e) = inl e
In-stage_names k (inr (inl e)) = inr (inl e)
In-stage_names k (inr (inr (inl e))) = inr (inr (inl e))
In-stage_names k (inr (inr (inr (inl e)))) = inr (inr (inr (inl e)))
In-stage_names k (inr (inr (inr (inr (inl e))))) = inr (inr (inr (inr (inl e))))
In-stage_names k (inr (inr (inr (inr (inr (inl e)))))) = inr (inr (inr (inr (inr (inl e)))))
In-stage_names k (inr (inr (inr (inr (inr (inr (inl e))))))) = inr (inr (inr (inr (inr (inr e)))))
In-stage_names k (inr (inr (inr (inr (inr (inr (inr e))))))) = elim e [ ]

named :
    (c : Contract) (stage : String) → is_terminal c stage ≡ true → contains stage (stages c) ≡ true
unfolding is_terminal
named c stage h = ground arith

terminal_name :
    (a b : String) → a ≡ b → is_terminal shipped a ≡ false → is_terminal shipped b ≢ true
terminal_name a b e f = subst (λ x. is_terminal shipped x ≢ true) e (λ h. cc)

-- The one stage that ends the shipped machine.
pub terminal-shipped : (stage : String) → is_terminal shipped stage ≡ true → stage ≡ "merger"
terminal-shipped stage h = elim (Option-cases (lookup stage (stages shipped))) [
  | inl e ↦ absurd (ground (arith, named shipped stage h))
  | inr (s, e) ↦
      let (a, b, c, d, f, g) = terminal_names in
      elim (In-stage_names stage (lookup-In stage (stages shipped) e)) [
        | inl q ↦ absurd (terminal_name _ stage q a h)
        | inr (inl q) ↦ absurd (terminal_name _ stage q b h)
        | inr (inr (inl q)) ↦ absurd (terminal_name _ stage q c h)
        | inr (inr (inr (inl q))) ↦ absurd (terminal_name _ stage q d h)
        | inr (inr (inr (inr (inl q)))) ↦ absurd (terminal_name _ stage q f h)
        | inr (inr (inr (inr (inr (inl q))))) ↦ absurd (terminal_name _ stage q g h)
        | inr (inr (inr (inr (inr (inr q))))) ↦ sym q
      ]
]

pub verdict_stages :
    (events_from shipped "implement" ≢ []) × (events_from shipped "continuous_review" ≢ [])
unfolding events_from transitions shipped
verdict_stages = ((λ e. cc), (λ e. cc))
