-- ===== src/Tasks.antt =====
-- internal/controller/taskrun_controller.go and hub_ca.go: the TaskRun reconciler.
pub mod Approval
pub mod Phases
pub mod Attempts
pub mod Retry
pub mod Revival
pub mod Streams
pub mod Trust
pub mod Tails
pub mod Rollouts
pub mod Changes
use Prim.Native.String.{◌++◌}
use software_distribution_pl.Prelude.{
  ℤ, pos, ◌+ℤ◌, ltb_ℤ, int32, String, string_eq, ◌==◌, Bool, true, false, not, ◌&&◌, ◌||◌, Option,
  none, some, List, [], ◌∷◌, Map, if◌then◌else◌,
}
use software_distribution_pl.Api.Meta.{Duration, Time, ObjectMeta, ObjectKey}
use software_distribution_pl.Api.Rollout.{Rollout, RolloutSpec, RolloutPhase}
use software_distribution_pl.Api.Pipeline.{
  PipelineTaskType, approval, release, TaskRunPhase, ApprovalStatus,
}
use software_distribution_pl.Api.Task.{TaskRun}
use software_distribution_pl.Kube.{
  Cluster, Trace, Call, ApiError, not_found, Error, api, Result, ok, err, JobStatus, M, ◌>>=◌, ◌>>◌,
  pure, fail, read, answer, emit, note, unless_exists, unless_missing, with_found,
  update_task_status, create_job, delete_job, create_ca_map, update_ca_map, create_rollout,
  stream_logs, alert, record_phase,
}
use software_distribution_pl.Jobs.Defaults.{JobBuilder, hub_ca_config_map_name}
use software_distribution_pl.Jobs.{build}
use software_distribution_pl.Pipelines.Changes.{check}
use software_distribution_pl.Tasks.Changes.{
  is_done, initial_phase, is_pending, is_approval, is_release, required_count, init_approval,
  max_retries, backoff_of, retried, finished, begun, mirror_rollout, build_rollout,
}

-- What is wired into the reconciler: the builder of Jobs, the order in which it visits the values of a release,
-- and whether logs can be streamed.
pub record TaskReconciler : Type 0 where
  pub job_builder : JobBuilder
  pub visit_values : Map String → Map String
  pub can_stream : Bool

module _ (k : Cluster) (r : TaskReconciler) where
  unfoldable pub ensure_ca_map : ObjectKey → Result String → M (Unit {0})
  ensure_ca_map key (err (api not_found)) = emit k (create_ca_map key r.job_builder.hub_ca_bundle)
  ensure_ca_map key (err e) = fail e
  ensure_ca_map key (ok got) =
      if got == r.job_builder.hub_ca_bundle
      then pure tt
      else emit k (update_ca_map key r.job_builder.hub_ca_bundle)

  unfoldable pub ensure_hub_ca_map : String → M (Unit {0})
  ensure_hub_ca_map ns =
      let key : ObjectKey = record { namespace = ns; name = hub_ca_config_map_name } in
      if r.job_builder.hub_ca_bundle == ""
      then pure tt
      else (λ tr. ensure_ca_map key (k.get_ca_map tr key) tr)

  -- A streamer is started unless one with its key is in flight; Streams says what it does.
  unfoldable pub maybe_stream_logs : TaskRun → M (Unit {0})
  maybe_stream_logs t tr =
      let key = t.spec.pipeline_run_ref ++ "/" ++ t.status.job_ref in
      (if not r.can_stream || t.status.job_ref == "" || k.is_streaming tr key
          then pure tt
          else note (stream_logs key))
        tr

  -- `r.Status().Update`, and the result that asks for a requeue after the delay.
  abbrev pub save : TaskRun → Duration → M Duration
  save t delay = emit k (update_task_status t) >> pure delay

  unfoldable pub reconcile_approval : TaskRun → M Duration
  reconcile_approval t tr =
      let t' = init_approval t (k.now tr) in
      (if is_pending t'.status.phase then save t' (pos 0) else pure (pos 0)) tr

  unfoldable pub start_job : TaskRun → M Duration
  start_job t = do
    let job = build r.job_builder r.visit_values t
    check (k.set_owner t.meta job.meta)
    ensure_hub_ca_map job.meta.namespace
    unless_exists (emit k (create_job job))
    now ← read (λ tr. ok (k.now tr))
    maybe_stream_logs (begun t job.meta.name now)
    save (begun t job.meta.name now) (pos 0)

  -- The switch over the status of the Job.
  unfoldable pub follow_job : TaskRun → JobStatus → M Duration
  follow_job t job =
      if ltb_ℤ (pos 0) job.succeeded
      then (note (record_phase t.spec.type TaskRunPhase.succeeded)
          >> (read (λ tr. ok (k.now tr)) >>= λ now.
              save (finished t TaskRunPhase.succeeded now) (pos 0)))
      else if ltb_ℤ (pos 0) job.failed
      then (if ltb_ℤ t.status.retry_count (max_retries t)
          then (unless_missing (
                emit k
                  (delete_job (record { namespace = t.spec.namespace; name = t.status.job_ref })))
              >> save (retried t) (backoff_of t))
          else (note (record_phase t.spec.type TaskRunPhase.failed)
              >> (note (alert "taskrun" t.spec.task_name t.status.message)
                  >> (read (λ tr. ok (k.now tr)) >>= λ now.
                      save (finished t TaskRunPhase.failed now) (pos 0)))))
      else save t (pos 0)

  unfoldable pub reconcile_job : TaskRun → M Duration
  reconcile_job t =
      if is_done t.status.phase
      then pure (pos 0)
      else if t.status.job_ref == ""
      then start_job t
      else with_found
          (λ tr. k.get_job tr (record { namespace = t.spec.namespace; name = t.status.job_ref }))
          (pos 0) (follow_job t)

  -- Called only where the TaskRun has a RolloutSpec.
  unfoldable pub reconcile_deploy : TaskRun → RolloutSpec → M Duration
  reconcile_deploy t spec =
      if t.status.rollout_ref == ""
      then (check (k.set_owner t.meta (build_rollout t spec).meta)
          >> (unless_exists (emit k (create_rollout (build_rollout t spec)))
              >> (read (λ tr. ok (k.now tr)) >>= λ now.
                  save
                    (record t {
                      status = record (t.status) {
                        phase = TaskRunPhase.running;
                        rollout_ref = (build_rollout t spec).meta.name;
                        start_time = some now;
                      };
                    })
                    (pos 0))))
      else with_found
          (λ tr.
            k.get_rollout tr (record { namespace = t.spec.namespace; name = t.status.rollout_ref }))
          (pos 0)
          (λ ro. read (λ tr. ok (k.now tr)) >>= λ now. save (mirror_rollout t ro now) (pos 0))

  -- The branches of Reconcile on the type of the task.
  unfoldable pub reconcile_task : TaskRun → M Duration
  reconcile_task t =
      if is_approval t.spec.type
      then reconcile_approval t
      else if is_release t.spec.type
      then elim t.spec.rollout_spec [ some spec ↦ reconcile_deploy t spec | none ↦ reconcile_job t ]
      else reconcile_job t

  unfoldable pub reconcile : ObjectKey → M Duration
  reconcile key = with_found (λ tr. k.get_task_run tr key) (pos 0) reconcile_task
