-- ===== src/Rollouts/Gate.antt =====
-- What the health check of a Rollout asks for, and when it is asked.
use software_distribution_pl.Prelude.{
  ◌+◌, ◌≤◌, ◌<◌, ℤ, pos, ◌*ℤ◌, int64, ltb_ℤ, leb_ℤ, ◌≡◌, ◌≢◌, true, false, ◌&&◌, Option, none, some,
  get_elem?, int_eq, arith,
}
use software_distribution_pl.Api.Meta.{Time}
use software_distribution_pl.Api.Rollout.{
  Rollout, RolloutPhase, CanaryStep, http_probe, prometheus_query,
}
use software_distribution_pl.Kube.{Cluster, Trace}
use software_distribution_pl.Health
use software_distribution_pl.Health.{Response, probe_timeout, query_url, prometheus_query_ok}
use software_distribution_pl.Health.Failsafe.{IsWithin}
use software_distribution_pl.Canary.{evaluate, evaluate_weight, second}
use software_distribution_pl.Rollouts.{RolloutReconciler}
use software_distribution_pl.Rollouts.Changes.{probe_due}
use software_distribution_pl.Rollouts.Walk.{judged, probe_url}

-- A response in the two hundreds.
pub record IsSuccess (answer : Option Response) : Type 0 where
  pub response : Response
  pub answered : answer ≡ some response
  pub at_least : 200 ≤ response.status
  pub below : response.status < 300

module _ (k : Cluster) (r : RolloutReconciler) where
  -- What the check of a Rollout asks for, besides the pods.
  abbrev pub Passes : Rollout → Trace → Type 0
  Passes ro tr =
      let hc = ro.spec.health_check in
      let timeout = probe_timeout (int64 (hc.interval_seconds *ℤ second)) in
      let query = query_url r.prometheus_endpoint hc.prometheus_query_expr in
      elim hc.type [
        | http_probe ↦ IsSuccess (r.http tr (probe_url ro) timeout)
        | prometheus_query ↦
            ((r.prometheus_endpoint ≢ "")
              × IsWithin r.floats (r.http tr query timeout) hc.prometheus_threshold)
        | _ ↦ Unit
      ]

  -- At a reached weight whose pods are up, if no check is due, Evaluate goes on to the next step,
  -- whatever the health check would answer and however many checks have failed.
  pub advances_unchecked :
      (ro : Rollout) (now : Time) (ready desired total : ℤ) (step : CanaryStep) (target : ℤ)
      (tr : Trace)
      → probe_due ro now ≡ false
      → get_elem? ro.spec.steps ro.status.current_step_index ≡ some step
      → step.pause ≡ none
      → step.set_weight ≡ some target
      → ro.status.current_weight ≡ target
      → (leb_ℤ desired ready && ltb_ℤ (pos 0) desired) ≡ true
      → (let health =
            judged k r ro (probe_due ro now) (leb_ℤ desired ready && ltb_ℤ (pos 0) desired) tr in
          let d = evaluate r.parse_time now ro ready desired total health in
          (d.current_step_index ≡ ro.status.current_step_index + 1)
          × (d.phase ≡ RolloutPhase.progressing)
          × (d.consecutive_failures ≡ pos 0))
  unfolding judged evaluate evaluate_weight
  advances_unchecked ro now ready desired total step target tr due e p w at up =
      rw due (rw up (ground arith, ground arith, ground arith))
