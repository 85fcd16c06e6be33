-- ===== src/Canary/Split.antt =====
-- How the engine divides the replicas between the stable and the canary Deployment.
use software_distribution_pl.Prelude.{
  ℕ, zero, suc, ◌-◌, ◌+◌, ◌*◌, ◌/◌, ◌≤◌, ◌<◌, ℤ, pos, negsuc, ◌+ℤ◌, *ℤ-pos, -ℤ-pos, +ℤ-pos, ◌≤ℤ◌,
  quot_ℤ, int32-pos, ◌≡◌, ap, Bool, Option-cases, inl, inr, ◌⊎◌, Option, String, none, some, List,
  [], ◌∷◌, All, get_elem?, arith,
}
use software_distribution_pl.Api.Meta.{Time}
use software_distribution_pl.Api.Rollout.{RolloutSpec, PauseStep, Rollout, CanaryStep}
use software_distribution_pl.Canary.{
  Decision, evaluate_unready, evaluate_weight, evaluate_pause, weight_replicas, stable_of, evaluate,
  next_weight,
}

-- A percentage, as the schema of `SetWeight` bounds it.
abbrev pub IsWeight : ℤ → Type 0
IsWeight w = (pos 0 ≤ℤ w) × (w ≤ℤ pos 100)

-- A replica count: not negative, and an int32.
abbrev pub IsCount : ℤ → Type 0
IsCount n = (pos 0 ≤ℤ n) × (n ≤ℤ pos 2147483647)

share-le : (w t : ℕ) → w ≤ 100 → w * t / 100 ≤ t
share-le w t h = grind arith

-- What the canary gets of t replicas at w percent.
pub weight_replicas-pos :
    (w t : ℕ) → t < 2147483648 → w ≤ 100 → weight_replicas (pos w) (pos t) ≡ pos (w * t / 100)
unfolding weight_replicas quot_ℤ
weight_replicas-pos w t ht hw = rw *ℤ-pos (ground (arith, int32-pos (w * t / 100), share-le w t hw))

-- The two parts of t replicas: both lie in 0..t, and together they are t.
pub record IsSplit (t canary stable : ℤ) : Type 0 where
  pub canary_nonneg : pos 0 ≤ℤ canary
  pub canary_le : canary ≤ℤ t
  pub stable_nonneg : pos 0 ≤ℤ stable
  pub total : stable +ℤ canary ≡ t

IsSplit-pos :
    (c t : ℕ) → c ≤ t → t < 2147483648 → IsSplit (pos t) (pos c) (stable_of (pos c) (pos t))
IsSplit-pos c t h k = ground (arith, -ℤ-pos t c h, int32-pos (t - c), +ℤ-pos (t - c) c)

pub weight_replicas-IsSplit :
    (w t : ℤ)
    → IsWeight w
    → IsCount t
    → IsSplit t (weight_replicas w t) (stable_of (weight_replicas w t) t)
weight_replicas-IsSplit (negsuc w) t hw ht = absurd (omega (arith, hw.0))
weight_replicas-IsSplit (pos w) (negsuc t) hw ht = absurd (omega (arith, ht.0))
weight_replicas-IsSplit (pos w) (pos t) hw ht =
    rw (weight_replicas-pos w t (omega arith) (omega arith))
      (IsSplit-pos (w * t / 100) t (share-le w t (omega arith)) (omega arith))

-- That many percent of a number of replicas, rounded down.
abbrev pub percent : (weight total : ℤ) → ℤ
percent (pos w) (pos t) = pos (w * t / 100)
percent weight total = pos 0

weight_replicas-percent : (w t : ℤ) → IsWeight w → IsCount t → weight_replicas w t ≡ percent w t
weight_replicas-percent (negsuc w) t hw ht = absurd (omega (arith, hw.0))
weight_replicas-percent (pos w) (negsuc t) hw ht = absurd (omega (arith, ht.0))
weight_replicas-percent (pos w) (pos t) hw ht = weight_replicas-pos w t (omega arith) (omega arith)

-- Replica counts that are the shares of a weight.
pub record Share (t weight canary stable : ℤ) : Type 0 where
  pub is_weight : IsWeight weight
  pub canary_share : canary ≡ percent weight t
  pub split : IsSplit t canary stable

-- A Decision whose replica counts are the shares of its own weight.
abbrev pub IsShare : ℤ → Decision → Type 0
IsShare t d = Share t d.current_weight d.canary_replicas d.stable_replicas

-- Every weight of the plan is a percentage.
abbrev pub AllWeights : List CanaryStep → Type 0
AllWeights = All (λ s. elim s.set_weight [ none ↦ Unit {0} | some w ↦ IsWeight w ])

pub AllWeights-get_elem? :
    (steps : List CanaryStep) (i : ℕ) {s : CanaryStep} {w : ℤ}
    → AllWeights steps
    → get_elem? steps i ≡ some s
    → s.set_weight ≡ some w
    → IsWeight w
AllWeights-get_elem? [] i h e k = cc
AllWeights-get_elem? (x ∷ xs) zero h e k = ground arith
AllWeights-get_elem? (x ∷ xs) (suc i) h e k = AllWeights-get_elem? xs i h.1 e k

zero_percent : (t : ℤ) → IsCount t → pos 0 ≡ percent (pos 0) t
zero_percent (negsuc t) h = absurd (omega (arith, h.0))
zero_percent (pos t) h = ap pos (omega arith)

no_canary : (t : ℤ) → IsCount t → IsSplit t (pos 0) t
unfolding ◌+ℤ◌
no_canary t h = ground arith

pub rolled_back-Share : (t : ℤ) → IsCount t → Share t (pos 0) (pos 0) t
rolled_back-Share t h = record {
  is_weight = omega arith;
  canary_share = zero_percent t h;
  split = no_canary t h;
}

pub weight-Share :
    (w t : ℤ)
    → IsWeight w
    → IsCount t
    → Share t w (weight_replicas w t) (stable_of (weight_replicas w t) t)
weight-Share w t hw ht = record {
  is_weight = hw;
  canary_share = weight_replicas-percent w t hw ht;
  split = weight_replicas-IsSplit w t hw ht;
}

pub next_weight-IsWeight :
    (spec : RolloutSpec) (i : ℕ) (w : ℤ)
    → AllWeights spec.steps
    → IsWeight w
    → IsWeight (next_weight spec i w)
unfolding next_weight
next_weight-IsWeight spec i w h hw = elim (Option-cases (get_elem? spec.steps (i + 1))) [
  | inl e ↦ rw (e, next_weight) hw
  | inr (nxt, e) ↦
      rw (e, next_weight)
        (elim (Option-cases nxt.set_weight) [
          | inl k ↦ rw (k, next_weight) hw
          | inr (v, k) ↦ rw (k, next_weight) (AllWeights-get_elem? spec.steps (i + 1) h e k)
        ])
]

module _ (ro : Rollout) (t : ℤ) (plan : AllWeights ro.spec.steps)
    (now_weight : IsWeight ro.status.current_weight) (count : IsCount t) where
  evaluate_unready-IsShare :
      (target ready desired : ℤ) (ok : Bool)
      → IsWeight target
      → IsShare t (evaluate_unready ro target ready desired t ok)
  unfolding evaluate_unready
  evaluate_unready-IsShare target ready desired ok h =
      ground (arith, rolled_back-Share t count, weight-Share target t h count)

  evaluate_weight-IsShare :
      (target ready desired : ℤ) (ok : Bool)
      → IsWeight target
      → IsShare t (evaluate_weight ro target ready desired t ok)
  unfolding evaluate_weight
  evaluate_weight-IsShare target ready desired ok h =
      let next = next_weight-IsWeight ro.spec ro.status.current_step_index target plan h in
      ground (
        arith,
        weight-Share target t h count,
        weight-Share _ t next count,
        evaluate_unready-IsShare target ready desired ok h,
      )

  evaluate_pause-IsShare :
      (parse_time : String → Option Time) (now : Time) (pause : PauseStep) (ok : Bool)
      → IsShare t (evaluate_pause parse_time now ro pause t ok)
  unfolding evaluate_pause
  evaluate_pause-IsShare parse_time now pause ok =
      ground (arith, weight-Share ro.status.current_weight t now_weight count)

  by_set_weight :
      (parse_time : String → Option Time) (now : Time) (ready desired : ℤ) (ok : Bool)
      {step : CanaryStep}
      → get_elem? ro.spec.steps ro.status.current_step_index ≡ some step
      → (step.set_weight ≡ none)
        ⊎ ((w : ℤ) × (step.set_weight ≡ some w)
            × IsShare t (evaluate_weight ro w ready desired t ok))
  by_set_weight parse_time now ready desired ok {step} e = elim (Option-cases step.set_weight) [
    | inl k ↦ inl k
    | inr (w, k) ↦ inr (
      w,
      k,
      evaluate_weight-IsShare w ready desired ok
          (AllWeights-get_elem? ro.spec.steps ro.status.current_step_index plan e k),
    )
  ]

  -- If the weights of the plan and the present weight are percentages and the total is a replica
  -- count, every Decision of Evaluate carries a percentage, gives the canary that many percent of
  -- the total, rounded down, and splits the total into two parts that are not negative and sum to
  -- it, in int32.
  pub evaluate-IsShare :
      (parse_time : String → Option Time) (now : Time) (ready desired : ℤ) (ok : Bool)
      → IsShare t (evaluate parse_time now ro ready desired t ok)
  unfolding evaluate
  evaluate-IsShare parse_time now ready desired ok =
      elim (Option-cases (get_elem? ro.spec.steps ro.status.current_step_index)) [
        | inl e ↦ rw (e, evaluate) (weight-Share ro.status.current_weight t now_weight count)
        | inr (step, e) ↦
            rw (e, evaluate)
              (ground (
                arith,
                weight-Share ro.status.current_weight t now_weight count,
                by_set_weight parse_time now ready desired ok e,
                λ (p : PauseStep). evaluate_pause-IsShare parse_time now p ok,
              ))
      ]
