-- ===== src/Canary/Steps.antt =====
-- How the engine walks the steps of a plan.
use software_distribution_pl.Prelude.{
  ℕ, zero, suc, sub_ℕ, ◌+◌, ◌≤◌, ◌<◌, ℤ, pos, ◌≤ℤ◌, int_eq, nat_eq, ◌≡◌, ◌≢◌, ap, ◌∙◌, Bool, true,
  Option, none, some, Option-cases, inl, inr, ◌⊎◌, ◌↔◌, List, [], ◌∷◌, get_elem?, length, String,
  arith,
}
use software_distribution_pl.Api.Meta.{Time}
use software_distribution_pl.Api.Rollout.{healthy, PauseStep, Rollout, CanaryStep}
use software_distribution_pl.Canary.{
  Decision, evaluate, evaluate_pause, evaluate_weight, evaluate_unready, pause_elapsed,
  parse_pause_start, pause_start_annotation, annotation,
}

pub get_elem?-lt {ℓ} :
    {A : Type ℓ} (xs : List A) (i : ℕ) {a : A} → get_elem? xs i ≡ some a → i < length xs
get_elem?-lt [] i e = cc
get_elem?-lt (x ∷ xs) zero e = omega arith
get_elem?-lt (x ∷ xs) (suc i) e = omega (arith, get_elem?-lt xs i e)

get_elem?-none {ℓ} : {A : Type ℓ} (xs : List A) (i : ℕ) → get_elem? xs i ≡ none → length xs ≤ i
get_elem?-none [] i e = omega arith
get_elem?-none (x ∷ xs) zero e = cc
get_elem?-none (x ∷ xs) (suc i) e = omega (arith, get_elem?-none xs i e)

module _ (parse_time : String → Option Time) (now : Time) (ro : Rollout) (ready desired total : ℤ)
    (ok : Bool) where
  abbrev stamp : Option (ℤ × Time)
  stamp = parse_pause_start parse_time (annotation pause_start_annotation ro.meta.annotations)

  abbrev decision : Decision
  decision = evaluate parse_time now ro ready desired total ok

  -- Evaluate keeps the step index or raises it by one, and does not raise it above the number of
  -- steps.
  pub evaluate_one_step :
      (ro.status.current_step_index ≤ decision.current_step_index)
      × (decision.current_step_index ≤ ro.status.current_step_index + 1)
      × ((decision.current_step_index ≡ ro.status.current_step_index)
          ⊎ (decision.current_step_index ≤ length ro.spec.steps))
  unfolding evaluate evaluate_pause evaluate_weight evaluate_unready
  evaluate_one_step = elim (Option-cases (get_elem? ro.spec.steps ro.status.current_step_index)) [
    | inl e ↦ ground arith
    | inr (step, e) ↦ ground (arith, get_elem?-lt ro.spec.steps ro.status.current_step_index e)
  ]

  -- What lets the walk leave a step that is not malformed.
  pub data MayAdvance (step : CanaryStep) : Type 0 where
    pause_over :
        (p : PauseStep) {d : ℤ}
        → step.pause ≡ some p
        → p.duration ≡ some d
        → (started : Time)
        → parse_pause_start parse_time (annotation pause_start_annotation ro.meta.annotations)
          ≡ some (pos ro.status.current_step_index, started)
        → d ≤ℤ sub_ℕ now started
        → ok ≡ true
        → MayAdvance step
    weight_reached :
        {target : ℤ}
        → step.pause ≡ none
        → step.set_weight ≡ some target
        → ro.status.current_weight ≡ target
        → (pos 1 ≤ℤ desired) × (desired ≤ℤ ready) × (ok ≡ true)
        → MayAdvance step
    malformed : step.pause ≡ none → step.set_weight ≡ none → MayAdvance step

  elapsed :
      {step : CanaryStep} (p : PauseStep) {d : ℤ}
      → step.pause ≡ some p
      → p.duration ≡ some d
      → pause_elapsed parse_time now ro d ok ≡ true
      → MayAdvance step
  unfolding pause_elapsed
  elapsed p {d} k n e = elim (Option-cases stamp) [
    | inl none_there ↦ absurd (ground arith)
    | inr ((i, started), there) ↦
        pause_over p k n started
          (there
            ∙ ap (λ j. some (j, started))
                ((int_eq.is_same_iff i (pos ro.status.current_step_index)).0
                  (ground (arith, there))))
          (ground (arith, there)) (ground (arith, there))
  ]

  -- Evaluate leaves a step only past a timed pause whose stamp is of this step and at least its
  -- duration old with a healthy canary, past a weight that is reached by at least one desired pod,
  -- all ready, with the health check passed, or past a step that sets nothing.
  pub evaluate-MayAdvance :
      (step : CanaryStep)
      → get_elem? ro.spec.steps ro.status.current_step_index ≡ some step
      → decision.current_step_index ≢ ro.status.current_step_index
      → MayAdvance step
  unfolding evaluate evaluate_pause evaluate_weight evaluate_unready
  evaluate-MayAdvance step e moved = elim (Option-cases step.pause) [
    | inr (p, k) ↦ elim (Option-cases p.duration) [
      | inl n ↦ absurd (ground arith)
      | inr (d, n) ↦ elapsed p k n (ground arith)
    ]
    | inl k ↦ elim (Option-cases step.set_weight) [
      | inl n ↦ malformed k n
      | inr (w, n) ↦ weight_reached k n (ground arith) (ground arith)
    ]
  ]

  -- Evaluate decides on Healthy exactly when the step index is not below the number of steps.
  evaluate-healthy_iff :
      (decision.phase ≡ healthy) ↔ (length ro.spec.steps ≤ ro.status.current_step_index)
  unfolding evaluate evaluate_pause evaluate_weight evaluate_unready
  evaluate-healthy_iff =
      elim (Option-cases (get_elem? ro.spec.steps ro.status.current_step_index)) [
        | inl e ↦
            (λ h. get_elem?-none ro.spec.steps ro.status.current_step_index e, λ h. ground arith)
        | inr (step, e) ↦ (
          λ h. absurd (ground arith),
          λ h. absurd (omega (arith, get_elem?-lt ro.spec.steps ro.status.current_step_index e)),
        )
      ]
