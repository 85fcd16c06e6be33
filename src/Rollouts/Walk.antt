-- ===== src/Rollouts/Walk.antt =====
-- internal/controller/rollout_controller.go: Reconcile, its holds and the automatic walk.
use Prim.Native.String.{◌++◌}
use software_distribution_pl.Prelude.{
  ℤ, pos, ◌*ℤ◌, int64, String, ◌==◌, leb_ℤ, ltb_ℤ, int_eq, string_eq, Bool, true, false, not, ◌&&◌,
  Option, none, some, insert, if◌then◌else◌,
}
use software_distribution_pl.Api.Meta.{Duration, ObjectKey}
use software_distribution_pl.Api.Rollout.{Rollout, RolloutPhase, http_probe, prometheus_query}
use software_distribution_pl.Health
use software_distribution_pl.Health.{prometheus_query_ok}
use software_distribution_pl.Kube.{
  Cluster, Trace, ok, Deployment, M, ◌>>=◌, ◌>>◌, pure, read, note, with_found, alert, set_weight,
}
use software_distribution_pl.Canary.{
  Decision, evaluate, rollback_decision, weight_replicas, stable_of, pause_start_annotation, second,
  format_pause_start,
}
use software_distribution_pl.Rollouts.{
  ann_rollout_paused, ann_rollout_aborted, health_check_interval, canary_replica_state,
  canary_deployment_has_replica_failure, is_failed_or_rolled_back, found, RolloutReconciler,
}
use software_distribution_pl.Rollouts.Changes.{
  first_sight, annotate, is_set, is_alerting, decided, aborted, hold, probe_due, unstamped_pause,
}
use software_distribution_pl.Rollouts.Actions.{
  time, save, patch_meta, ensure_workload, ensure_canary, apply_decision,
}
use software_distribution_pl.Rollouts.Commands.{apply_control_command}

-- The Service of the workload, at the path of the check.
unfoldable pub probe_url : Rollout → String
probe_url ro =
    let path = ro.spec.health_check.http_path in
    "http://"
    ++ ro.spec.workload_ref
    ++ "-sdp."
    ++ ro.meta.namespace
    ++ ".svc.cluster.local:80"
    ++ (if path == "" then "/" else path)

module _ (k : Cluster) (r : RolloutReconciler) where
  -- The branch of an operator's rollback.
  unfoldable pub hold_aborted : Rollout → M Duration
  hold_aborted ro = do
    total ← ensure_workload k r ro
    canary_dep ← ensure_canary k r ro
    apply_decision k r ro
        (hold RolloutPhase.rolled_back 0 (pos 0) (pos 0) total "rolled back by operator") canary_dep
    now ← time k r
    save k r (aborted ro total now)
    pure (pos 0)

  -- The branch of an operator's pause.
  unfoldable pub hold_paused : Rollout → M Duration
  hold_paused ro = do
    total ← ensure_workload k r ro
    canary_dep ← ensure_canary k r ro
    let weight = ro.status.current_weight
    let canary = weight_replicas weight total
    apply_decision k r ro
        (hold RolloutPhase.paused ro.status.current_step_index weight canary
          (stable_of canary total) "paused by operator")
        canary_dep
    save k r (record ro {
      status = record (ro.status) { phase = RolloutPhase.paused; message = "paused by operator" };
    })
    pure health_check_interval

  -- The gate of the pods, and the active check where the spec asks for one.
  unfoldable pub canary_healthy : Rollout → Bool → Trace → Bool
  canary_healthy ro pods_ready tr =
      let hc = ro.spec.health_check in
      let timeout = int64 (hc.interval_seconds *ℤ second) in
      let asked =
        prometheus_query_ok r.floats (r.http tr) r.prometheus_endpoint hc.prometheus_query_expr
          hc.prometheus_threshold timeout in
      if not pods_ready then false else elim hc.type [
        | http_probe ↦ Health.http_probe (r.http tr) (probe_url ro) timeout
        | prometheus_query ↦ if r.prometheus_endpoint == "" then false else asked
        | _ ↦ true
      ]

  -- What the engine is told of the health: between two checks, only whether the pods are up.
  unfoldable pub judged : Rollout → (probed pods_ready : Bool) → Trace → Bool
  unfolding canary_healthy
  judged ro probed pods_ready tr = if probed then canary_healthy ro pods_ready tr else pods_ready

  -- A canary that cannot make progress is rolled back at once.
  unfoldable pub roll_back : Rollout → ℤ → Option Deployment → M Duration
  roll_back ro total canary_dep = do
    apply_decision k r ro (rollback_decision ro total) canary_dep
    now ← time k r
    note (alert "rollout" ro.meta.name "canary replica failure")
    save k r (record ro {
      status = record (ro.status) { phase = RolloutPhase.rolled_back; completion_time = some now };
    })
    pure (pos 0)

  -- The end of Reconcile: carry out what the engine decides and store it.
  unfoldable pub follow : Rollout → Decision → Option Deployment → Bool → M Duration
  follow ro d canary_dep probed = do
    apply_decision k r ro d canary_dep
    now ← time k r
    note (set_weight d.current_weight)
    if is_alerting d.phase then note (alert "rollout" ro.meta.name d.message) else pure tt
    save k r (decided ro d probed now)
    pure d.requeue_after

  -- The automatic walk, from the workload on.
  unfoldable pub walk : Rollout → M Duration
  walk ro = do
    total ← ensure_workload k r ro
    canary_dep ← ensure_canary k r ro
    now ← time k r
    let (ready, desired) = canary_replica_state canary_dep
    let pods_ready = leb_ℤ desired ready && ltb_ℤ (pos 0) desired
    let probed = probe_due ro now
    healthy ← read (λ tr. ok (judged ro probed pods_ready tr))
    let stuck = canary_deployment_has_replica_failure canary_dep && ro.spec.auto_rollback
    let d = evaluate r.parse_time now ro ready desired total healthy
    if stuck then roll_back ro total canary_dep else follow ro d canary_dep probed

  -- A timed pause is stamped on a fresh copy before the walk; if the copy cannot be read, the walk goes on.
  unfoldable pub stamp_or_walk : Rollout → M Duration
  stamp_or_walk ro = elim (unstamped_pause r.parse_time ro) [
    | none ↦ walk ro
    | some duration ↦
        read (λ tr. ok (
          found (k.get_rollout tr (record { namespace = ro.meta.namespace; name = ro.meta.name }))))
        >>= λ got. elim got [
          | none ↦ walk ro
          | some fresh ↦ time k r >>= λ now.
              patch_meta k r fresh (
                annotate
                  (insert pause_start_annotation
                    (format_pause_start r.format_time ro.status.current_step_index now))
                  fresh)
              >>= λ _. pure duration
        ]
  ]

  -- The holds, in their order, and the walk.
  unfoldable pub reconcile_held : Rollout → M Duration
  reconcile_held ro =
      if is_set ro ann_rollout_aborted
      then hold_aborted ro
      else if is_set ro ann_rollout_paused
      then hold_paused ro
      else if is_failed_or_rolled_back ro.status.phase
      then pure (pos 0)
      else stamp_or_walk ro

  unfoldable pub reconcile_rollout : Rollout → M Duration
  reconcile_rollout seen = do
    now ← time k r
    let ro = first_sight seen now
    acted ← apply_control_command k r ro
    if acted then pure health_check_interval else reconcile_held ro

  unfoldable pub reconcile : ObjectKey → M Duration
  reconcile key = with_found (λ tr. k.get_rollout tr key) (pos 0) reconcile_rollout
