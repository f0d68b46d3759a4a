-- ===== src/Dd/Egress/Outcomes.antt =====
-- What `retry_remote` of dd/egress.py guarantees: how often it asks, how long it sleeps, and what its
-- end says of the answers.
use fleet_graph.Common.{
  Bool-cases, List, Option, String, [], arith, elem, eq_iff, eqb, false, inl, inr, leb, length,
  refl, some, subst, suc, sym, true, zero, ℕ, ◌*◌, ◌+◌, ◌-◌, ◌<◌, ◌↔◌, ◌∷◌, ◌≡◌, ◌≢◌, ◌≤◌, ◌⊎◌,
}
use fleet_graph.Dd.Egress.{
  GitFailure, backoff_retry, business_codes, classify_git_failure, disposition_of, egress_transport,
  human_gate, is_transport_failure, layer_failure, provider_unavailable, reconfigure, repo_conflict,
  repo_rejected, root_cause_for, unclassified,
}
use fleet_graph.Dd.Egress.Retry.{
  EgressPolicy, Evidence, RemoteResult, RetryEnd, RetryRun, attempts_from, backoff_delay,
  evidence_line, past_fence, raw_delay, repo_error, retry_remote, returned, transport_exhausted,
}
use native.Mathlib.Nat.{mul-le-mul_left}

abbrev pub sum : List ℕ → ℕ
sum [] = 0
sum (x ∷ xs) = x + sum xs

-- The classes of a failure, for a split that keeps the equation.
GitFailure-cases :
    (f : GitFailure)
    → (f ≡ egress_transport) ⊎ (f ≡ repo_rejected) ⊎ (f ≡ repo_conflict) ⊎ (f ≡ unclassified)
GitFailure-cases egress_transport = inl refl
GitFailure-cases repo_rejected = inr (inl refl)
GitFailure-cases repo_conflict = inr (inr (inl refl))
GitFailure-cases unclassified = inr (inr (inr refl))

abbrev pub failure_of : {A : Type 0} → RemoteResult A → GitFailure
failure_of result = classify_git_failure result.stderr (some result.exit_code)

-- The end of a run, read off the last answer.
abbrev pub Reports : {A : Type 0} → RetryEnd A → ℕ → RemoteResult A → Type 0
Reports (returned v) attempt result = (result.exit_code ≡ 0) × (result.value ≡ v)
Reports (repo_error f code stderr) attempt result =
    (result.exit_code ≢ 0)
    × (failure_of result ≡ f)
    × (f ≢ egress_transport)
    × (result.exit_code ≡ code)
    × (result.stderr ≡ stderr)
Reports (transport_exhausted n stderr) attempt result =
    (result.exit_code ≢ 0)
    × (failure_of result ≡ egress_transport)
    × (n ≡ attempt)
    × (result.stderr ≡ stderr)

module _ {A : Type 0} (policy : EgressPolicy) (fence : Option ℕ) (rand : ℕ → ℕ)
    (operation : ℕ → RemoteResult A) where
  abbrev run_from : ℕ → ℕ → ℕ → RetryRun A
  run_from = attempts_from policy fence rand operation

  -- The answers from `attempt` on: each but the last is a transport failure, and the last one is
  -- what the end reports. Every answer has its evidence line.
  abbrev pub Explains : RetryEnd A → ℕ → List Evidence → Type 0
  Explains end attempt [] = ⊥
  Explains end attempt (line ∷ lines) =
      (line ≡ evidence_line attempt (operation attempt))
      × (((lines ≡ []) × Reports end attempt (operation attempt))
          ⊎ (((operation attempt).exit_code ≢ 0)
              × (failure_of (operation attempt) ≡ egress_transport)
              × Explains end (attempt + 1) lines))

  explained :
      (left attempt spent : ℕ)
      → 0 < left
      → left + attempt ≡ policy.max_attempts + 1
      → Explains (run_from left attempt spent).end attempt (run_from left attempt spent).evidence
  unfolding attempts_from
  explained zero attempt spent h e = elim h [ ]
  explained (suc left) attempt spent h e =
      let failed : eqb (operation attempt).exit_code 0 ≡ false → (operation attempt).exit_code ≢ 0 =
        λ z. ground arith in
      elim (Bool-cases (eqb (operation attempt).exit_code 0)) [
        | inl z ↦ rw z (refl, inl (refl, (ground arith, refl)))
        | inr z ↦ elim (GitFailure-cases (failure_of (operation attempt))) [
          | inr (inl q) ↦ rw (z, q) (refl, inl (refl, (failed z, q, (λ e. cc), refl, refl)))
          | inr (inr (inl q)) ↦ rw (z, q) (refl, inl (refl, (failed z, q, (λ e. cc), refl, refl)))
          | inr (inr (inr q)) ↦ rw (z, q) (refl, inl (refl, (failed z, q, (λ e. cc), refl, refl)))
          | inl q ↦ elim (Bool-cases (leb policy.max_attempts attempt)) [
            | inl l ↦ rw (z, q, l) (refl, inl (refl, (failed z, q, refl, refl)))
            | inr l ↦
                elim (Bool-cases
                  (past_fence fence (spent + backoff_delay attempt policy (rand attempt)))) [
                    | inl p ↦ rw (z, q, l, p) (refl, inl (refl, (failed z, q, refl, refl)))
                    | inr p ↦
                        rw (z, q, l, p)
                          (
                            refl,
                            inr (
                              failed z,
                              q,
                              explained left (attempt + 1)
                                  (spent + backoff_delay attempt policy (rand attempt))
                                  (ground arith) (omega arith),
                            ),
                          )
                  ]
          ]
        ]
      ]

  slept_within :
      (left attempt spent f : ℕ)
      → fence ≡ some f
      → spent ≤ f
      → spent + sum (run_from left attempt spent).slept ≤ f
  unfolding attempts_from
  slept_within zero attempt spent f e h = ground arith
  slept_within (suc left) attempt spent f e h = ground (
    arith,
    slept_within left (attempt + 1) (spent + backoff_delay attempt policy (rand attempt)) f,
  )

  asked_within : (left attempt spent : ℕ) → length (run_from left attempt spent).evidence ≤ left
  unfolding attempts_from
  asked_within zero attempt spent = omega arith
  asked_within (suc left) attempt spent =
      ground (
        arith,
        asked_within left (attempt + 1) (spent + backoff_delay attempt policy (rand attempt)),
      )

  -- With at least one attempt allowed, every answer of a run but the last is a transport failure,
  -- each answer has its evidence line in order, and the end is what the last answer says: a value
  -- after exit 0, a repo error after any other failure, exhaustion after a transport failure.
  pub retry_remote-explained :
      0 < policy.max_attempts
      → Explains
          (retry_remote policy fence rand operation).end
          1
          (retry_remote policy fence rand operation).evidence
  unfolding retry_remote
  retry_remote-explained h = explained policy.max_attempts 1 0 h refl

  -- A run asks at most `max_attempts` times, and under a fence the delays that it sleeps add up to
  -- no more than the fence.
  pub retry_remote-bounded :
      (length (retry_remote policy fence rand operation).evidence ≤ policy.max_attempts)
      × ((f : ℕ) → fence ≡ some f → sum (retry_remote policy fence rand operation).slept ≤ f)
  unfolding retry_remote
  retry_remote-bounded = (
    asked_within policy.max_attempts 1 0,
    λ f e. omega (arith, slept_within policy.max_attempts 1 0 f e),
  )

-- For a jitter fraction of at most 1 and a random number in [0, 1], a delay lies within the jitter
-- fraction around the capped exponential ladder.
pub backoff_delay-bounds :
    (attempt : ℕ) (policy : EgressPolicy) (rand : ℕ)
    → policy.jitter_hundredths ≤ 100
    → rand ≤ 1000
    → (raw_delay attempt policy * (100000 - 1000 * policy.jitter_hundredths)
        ≤ backoff_delay attempt policy rand)
      × (backoff_delay attempt policy rand
          ≤ raw_delay attempt policy * (100000 + 1000 * policy.jitter_hundredths))
unfolding backoff_delay
backoff_delay-bounds attempt policy rand j r =
    let jitter : 2 * rand * policy.jitter_hundredths ≤ 2000 * policy.jitter_hundredths =
      grind arith in
    (
      mul-le-mul_left (raw_delay attempt policy) (omega arith),
      mul-le-mul_left (raw_delay attempt policy) (omega arith),
    )

provider_not_business :
    (code : String) → code ≡ provider_unavailable → elem code business_codes ≡ false
unfolding business_codes
provider_not_business code e = subst (λ c. elem c business_codes ≡ false) (sym e) refl

-- A failure goes back to the wire exactly where its words carry transport evidence or its code
-- is the legacy PROVIDER_UNAVAILABLE, whatever its words, to the human gate exactly where a
-- business code comes without transport evidence, and to a reconfiguration exactly where none
-- of these holds.
pub layer_failure-disposition :
    (code detail : String) (exit_code : Option ℕ)
    → (((layer_failure code detail exit_code).disposition ≡ backoff_retry)
        ↔ ((is_transport_failure detail exit_code ≡ true) ⊎ (code ≡ provider_unavailable)))
      × (((layer_failure code detail exit_code).disposition ≡ human_gate)
          ↔ ((is_transport_failure detail exit_code ≡ false) × (elem code business_codes ≡ true)))
      × (((layer_failure code detail exit_code).disposition ≡ reconfigure) ↔ (
          (is_transport_failure detail exit_code ≡ false)
          × (elem code business_codes ≡ false)
          × (code ≢ provider_unavailable)))
unfolding layer_failure root_cause_for disposition_of
layer_failure-disposition code detail exit_code =
    let named = eq_iff code provider_unavailable in
    let not_business = provider_not_business code in
    (
      (λ h. ground (arith, named), λ h. ground (arith, named, not_business)),
      (λ h. ground arith, λ h. ground arith),
      (λ h. ground (arith, named, not_business), λ h. ground (arith, named)),
    )
