-- ===== src/Canary/Verdict.antt =====
-- When the engine gives up a canary, and what it does then.
use software_distribution_pl.Prelude.{
  ℤ, pos, ltb_ℤ, leb_ℤ, ◌≤ℤ◌, int_eq, ◌≡◌, ◌≢◌, ◌&&◌, Bool, true, false, Option, String, arith,
}
use software_distribution_pl.Api.Meta.{Time}
use software_distribution_pl.Api.Rollout.{failed, rolling_back, Rollout}
use software_distribution_pl.Canary.{
  Decision, evaluate, evaluate_pause, evaluate_weight, evaluate_unready, count_failure,
}

module _ (parse_time : String → Option Time) (now : Time) (ro : Rollout) (ready desired total : ℤ)
    (ok : Bool) where
  abbrev decision : Decision
  decision = evaluate parse_time now ro ready desired total ok

  abbrev failures : ℤ
  failures = count_failure ro.status.consecutive_failures ready desired ok

  -- The failure threshold is set and has been reached.
  abbrev pub IsPast : Type 0
  IsPast =
      (pos 1 ≤ℤ ro.spec.health_check.failure_threshold)
      × (ro.spec.health_check.failure_threshold ≤ℤ failures)

  -- Evaluate decides on RollingBack only if AutoRollback is set and the failure threshold is set
  -- and reached, and then with weight 0, no canary replica, all replicas stable, at the same step.
  pub evaluate-rolling_back :
      decision.phase ≡ rolling_back
      → (ro.spec.auto_rollback ≡ true)
        × IsPast
        × (decision.current_weight ≡ pos 0)
        × (decision.canary_replicas ≡ pos 0)
        × (decision.stable_replicas ≡ total)
        × (decision.current_step_index ≡ ro.status.current_step_index)
  unfolding evaluate evaluate_pause evaluate_weight evaluate_unready
  evaluate-rolling_back h = ground arith

  -- Evaluate decides on Failed only if AutoRollback is not set and the failure threshold is set
  -- and reached, and then at the same step and weight, with the new failure count.
  evaluate-failed :
      decision.phase ≡ failed
      → (ro.spec.auto_rollback ≡ false)
        × IsPast
        × (decision.current_weight ≡ ro.status.current_weight)
        × (decision.consecutive_failures ≡ failures)
        × (decision.current_step_index ≡ ro.status.current_step_index)
  unfolding evaluate evaluate_pause evaluate_weight evaluate_unready
  evaluate-failed h = ground arith

  -- While the canary pods are not all up and a failure count that is not negative is below the
  -- threshold, Evaluate neither rolls back nor fails the rollout and does not raise the failure
  -- count, whatever the health check says.
  pub evaluate_slow_start :
      (ltb_ℤ (pos 0) desired && leb_ℤ desired ready) ≡ false
      → ltb_ℤ ro.status.consecutive_failures ro.spec.health_check.failure_threshold ≡ true
      → pos 0 ≤ℤ ro.status.consecutive_failures
      → (decision.phase ≢ rolling_back)
        × (decision.phase ≢ failed)
        × (decision.consecutive_failures ≤ℤ ro.status.consecutive_failures)
  unfolding evaluate evaluate_pause evaluate_weight evaluate_unready
  evaluate_slow_start down below nonneg = (ground arith, ground arith, ground arith)
