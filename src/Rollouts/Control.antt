-- ===== src/Rollouts/Control.antt =====
-- Operators' promotes, and two ways in which the walk goes on or stops against its intent.
use software_distribution_pl.Prelude.{
  ℕ, ◌+◌, ◌≤◌, ℤ, pos, int_eq, ◌==◌, ◌≡◌, ◌≢◌, ◌↔◌, refl, String, Bool, false, Option, none, some,
  get_elem?, length, arith,
}
use software_distribution_pl.Api.Meta.{Time, Duration}
use software_distribution_pl.Api.Rollout.{Rollout, RolloutPhase, CanaryStep}
use software_distribution_pl.Canary.{Decision, evaluate, evaluate_weight, annotation}
use software_distribution_pl.Canary.Split.{AllWeights, IsWeight, next_weight-IsWeight}
use software_distribution_pl.Canary.Verdict.{evaluate-rolling_back}
use software_distribution_pl.Canary.PauseStamp.{
  IsStamped, parse_pause_start-format_pause_start, evaluate_stale_stamp,
}
use software_distribution_pl.Rollouts.{is_failed_or_rolled_back}
use software_distribution_pl.Rollouts.Changes.{promoted, decided, unstamped_pause}

-- If the weights of the plan and the present weight are percentages, the step index is within the
-- plan and the Rollout is not Healthy, a promote leaves the index within the plan and at most one
-- further, sets a percentage, and makes the Rollout Healthy exactly when no step was left.
pub promoted_one_step :
    (ro : Rollout) (by : String) (now : Time)
    → AllWeights ro.spec.steps
    → IsWeight ro.status.current_weight
    → ro.status.current_step_index ≤ length ro.spec.steps
    → ro.status.phase ≢ RolloutPhase.healthy
    → ((promoted ro by now).status.current_step_index ≤ length ro.spec.steps)
      × ((promoted ro by now).status.current_step_index ≤ ro.status.current_step_index + 1)
      × IsWeight (promoted ro by now).status.current_weight
      × (((promoted ro by now).status.phase ≡ RolloutPhase.healthy)
          ↔ (ro.status.current_step_index ≡ length ro.spec.steps))
unfolding promoted
promoted_one_step ro by now plan weight le live =
    let next =
      next_weight-IsWeight ro.spec ro.status.current_step_index ro.status.current_weight plan
        weight in
    (ground arith, ground arith, ground (arith, next), (λ e. ground arith, λ e. ground arith))

module _ (parse_time : String → Option Time) where
  -- At weight 0 a step with another weight is scaled to.
  scales_to :
      (ro : Rollout) (now : Time) (ready desired total : ℤ) (ok : Bool) (step : CanaryStep)
      (target : ℤ)
      → get_elem? ro.spec.steps ro.status.current_step_index ≡ some step
      → step.pause ≡ none
      → step.set_weight ≡ some target
      → target ≢ pos 0
      → ro.status.current_weight ≡ pos 0
      → ((evaluate parse_time now ro ready desired total ok).phase ≡ RolloutPhase.progressing)
        × ((evaluate parse_time now ro ready desired total ok).current_weight ≡ target)
  unfolding evaluate evaluate_weight
  scales_to ro now ready desired total ok step target e p w nz z =
      let moved : (ro.status.current_weight == target) ≡ false = ground arith in
      rw (e, evaluate)
        (rw (p, evaluate) (rw (w, evaluate) (rw (moved, evaluate_weight) (refl, refl))))

  module _ (ro : Rollout) (now : Time) (ready desired total : ℤ) (ok probed : Bool) where
    -- What the engine decides, and the Rollout that the reconciler stores.
    abbrev pub decision : Decision
    decision = evaluate parse_time now ro ready desired total ok

    abbrev pub stored : Rollout
    stored = decided ro decision probed now

    -- After Evaluate decides on RollingBack at a weight step whose weight is not 0, the stored
    -- phase is none of those at which the reconciler stops, and Evaluate at the stored Rollout
    -- decides on Progressing at the weight of that step, whatever the replicas and the health are.
    pub evaluate_resumes_rolled_back :
        (later : Time) (ready' desired' : ℤ) (ok' : Bool) (step : CanaryStep) (target : ℤ)
        → decision.phase ≡ RolloutPhase.rolling_back
        → get_elem? ro.spec.steps ro.status.current_step_index ≡ some step
        → step.pause ≡ none
        → step.set_weight ≡ some target
        → target ≢ pos 0
        → (is_failed_or_rolled_back stored.status.phase ≡ false)
          × ((evaluate parse_time later stored ready' desired' total ok').phase
              ≡ RolloutPhase.progressing)
          × ((evaluate parse_time later stored ready' desired' total ok').current_weight ≡ target)
    unfolding decided
    evaluate_resumes_rolled_back later ready' desired' ok' step target rolled e p w nz =
        let (auto, past, zero_weight, canary, stable, same) =
          evaluate-rolling_back parse_time now ro ready desired total ok rolled in
        let here : get_elem? ro.spec.steps decision.current_step_index ≡ some step = rw same e in
        let next =
          scales_to stored later ready' desired' total ok' step target here p w nz zero_weight in
        (rw rolled refl, next.0, next.1)

-- A timed pause with the readable stamp of another step is not stamped again, and Evaluate stays
-- at its step at every time and with every health.
pub unstamped_pause_stale :
    (format_time : Time → String) (parse_time : String → Option Time) (ro : Rollout)
    (duration : Duration) (index : ℕ) (t t' : Time)
    → IsStamped format_time parse_time ro duration index t t'
    → index ≢ ro.status.current_step_index
    → (now : Time) (ready desired total : ℤ) (ok : Bool)
    → (unstamped_pause parse_time ro ≡ none)
      × ((evaluate parse_time now ro ready desired total ok).current_step_index
          ≡ ro.status.current_step_index)
unfolding unstamped_pause annotation
unstamped_pause_stale format_time parse_time ro duration index t t' h stale now ready desired total
      ok =
    (
      rw (h.current, unstamped_pause)
          (rw (h.is_pause, unstamped_pause)
            (rw (h.is_timed, unstamped_pause)
              (rw (h.stamp, unstamped_pause, annotation)
                (rw (
                  parse_pause_start-format_pause_start format_time parse_time index t t' h.small
                    h.law))))),
      evaluate_stale_stamp format_time parse_time ro duration index t t' h now ready desired total
          ok stale,
    )
