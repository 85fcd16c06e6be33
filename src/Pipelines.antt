-- ===== src/Pipelines.antt =====
-- internal/controller/pipelinerun_controller.go, pipelinerun_cancel.go and ensure_rbac.go: the PipelineRun
-- reconciler over the parameter `Cluster`.
pub mod Cancel
pub mod Outcome
pub mod Resync
pub mod Life
pub mod Phases
pub mod Changes
use Prim.Native.String.{◌++◌}
use software_distribution_pl.Prelude.{
  ℤ, pos, String, string_eq, ◌==◌, Bool, true, false, not, ◌&&◌, ◌||◌, Option, none, some, List, [],
  ◌∷◌, Map, lookup, erase, values, has_key, if◌then◌else◌,
}
use software_distribution_pl.Api.Meta.{Duration, ObjectMeta, ObjectKey}
use software_distribution_pl.Api.Pipeline.{
  PipelineRun, PipelineRunPhase, PipelineTaskSpec, TaskRunPhase,
}
use software_distribution_pl.Api.Task.{TaskRun}
use software_distribution_pl.Api.Payloads.{
  StatusUpdatePayload, ann_cancel_requested, ann_cancel_operator,
}
use software_distribution_pl.Kube.{
  Cluster, Trace, Call, ApiError, Result, ok, err, M, ◌>>=◌, ◌>>◌, pure, read, answer, emit, note,
  unless_exists, unless_missing, with_found, each, update_run_status, patch_run, create_task_run,
  delete_task_run, create_service_account, create_role, create_role_binding, send_status,
}
use software_distribution_pl.Dag.{
  index_by_task, find_runnable_tasks, all_tasks_succeeded, has_failed_task, find_pending_approval,
  rollouts_by_name, summarize_tasks, cancelled_task_summary, is_terminal_phase,
}
use software_distribution_pl.Pipelines.Changes.{
  key_of, is_empty, check, initial_phase, cancel_message, status_payload, build_task_run,
  without_request,
}

-- The fields of PipelineRunReconciler: whether a hub connection is wired, and the runner's name.
pub record Reconciler : Type 0 where
  pub connected : Bool
  pub target_name : String

module _ (k : Cluster) (r : Reconciler) where
  -- The send runs on a goroutine of its own; the trace has it where that is started.
  unfoldable pub report_status : PipelineRun → M (Unit {0})
  report_status pr =
      if not r.connected then pure tt else note (send_status (status_payload r.target_name pr))

  -- The update gives back the stored object, and that one is reported.
  unfoldable pub update_status : PipelineRun → M PipelineRun
  update_status pr = do
    emit k (update_run_status pr)
    stored ← read (λ tr. ok (k.stored_run tr pr))
    report_status stored
    pure stored

  unfoldable pub ensure_run_rbac : String → String → M (Unit {0})
  ensure_run_rbac namespace sa =
      if sa == "" || namespace == ""
      then pure tt
      else (unless_exists
            (emit k (create_service_account (record { namespace = namespace; name = sa })))
          >> (unless_exists
                (emit k (create_role (record { namespace = namespace; name = "sdp-deploy" })))
              >> unless_exists (
                  emit k (
                    create_role_binding
                      (record { namespace = namespace; name = "sdp-deploy-" ++ sa }) sa))))

  unfoldable pub clear_cancel_annotations : PipelineRun → M (Unit {0})
  clear_cancel_annotations pr =
      if not (has_key ann_cancel_requested pr.meta.annotations)
        && not (has_key ann_cancel_operator pr.meta.annotations)
      then pure tt
      else emit k (patch_run pr (without_request pr))

  -- The deletes run in the order in which the map is visited.
  unfoldable pub cancel_task_runs : PipelineRun → M (Map TaskRun)
  cancel_task_runs pr = do
    items ← read (λ tr.
        k.list_task_runs tr (some pr.meta.namespace) (("sdp.io/pipeline-run", pr.meta.name) ∷ []))
    let existing = index_by_task items []
    each (λ t. unless_missing (emit k (delete_task_run (key_of t.meta))))
        (k.visit (values existing))
    pure existing

  -- The teardown of a run that is not finished: stop the work, report the end, clear the request.
  unfoldable pub cancel_run : PipelineRun → M Bool
  cancel_run pr = do
    now ← read (λ tr. ok (k.now tr))
    existing ← cancel_task_runs pr
    stored ← update_status (record pr {
      status = record (pr.status) {
        phase = PipelineRunPhase.cancelled;
        completion_time = some now;
        current_approval = none;
        message = cancel_message pr;
        tasks = cancelled_task_summary pr.spec.tasks existing now (cancel_message pr);
      };
    })
    clear_cancel_annotations stored
    pure true

  unfoldable pub apply_cancel_if_requested : PipelineRun → M Bool
  apply_cancel_if_requested pr =
      if not (has_key ann_cancel_requested pr.meta.annotations)
      then pure false
      else if is_terminal_phase pr.status.phase
      then (clear_cancel_annotations pr >> pure true)
      else cancel_run pr

  -- The loop that creates the TaskRuns of the runnable tasks.
  unfoldable pub create_task_runs : PipelineRun → List PipelineTaskSpec → M (Unit {0})
  create_task_runs pr runnable =
      each
        (λ task.
          check (k.set_owner pr.meta (build_task_run pr task).meta)
          >> unless_exists (emit k (create_task_run (build_task_run pr task))))
        runnable

  -- The end of Reconcile: start what can be started, or notice that the run is complete.
  unfoldable pub schedule : PipelineRun → Map TaskRun → M Duration
  schedule pr existing =
      let runnable = find_runnable_tasks pr.spec.tasks existing in
      if not (is_empty runnable)
      then (ensure_run_rbac pr.spec.target_namespace pr.spec.service_account_name
          >> (create_task_runs pr runnable
              >> (update_status
                    (record pr { status = record (pr.status) { phase = PipelineRunPhase.running } })
                  >>= λ _. pure (pos 0))))
      else if all_tasks_succeeded pr.spec.tasks existing
      then (read (λ tr. ok (k.now tr)) >>= λ now.
          update_status (record pr {
            status = record (pr.status) {
              phase = PipelineRunPhase.succeeded;
              completion_time = some now;
            };
          })
          >>= λ _. pure (pos 0))
      else (update_status pr >>= λ _. pure (pos 0))

  -- The middle of Reconcile, from the summary on.
  unfoldable pub advance : PipelineRun → Map TaskRun → M Duration
  advance pr existing = elim (find_pending_approval pr.spec.tasks existing) [
    | some approval ↦
        update_status (record pr {
          status = record (pr.status) {
            phase = PipelineRunPhase.waiting_approval;
            current_approval = some approval;
          };
        })
        >>= λ _. pure (pos 0)
    | none ↦
        let pr' = record pr { status = record (pr.status) { current_approval = none } } in
        if has_failed_task existing
        then (update_status
              (record pr' { status = record (pr'.status) { phase = PipelineRunPhase.failed } })
            >>= λ _. pure (pos 0))
        else schedule pr' existing
  ]

  -- From the two List calls on.
  unfoldable pub observe : PipelineRun → M Duration
  observe pr = do
    let labels = ("sdp.io/pipeline-run", pr.meta.name) ∷ []
    items ← read (λ tr. k.list_task_runs tr (some pr.meta.namespace) labels)
    rollouts ← read (λ tr. k.list_rollouts tr (some pr.meta.namespace) labels)
    let existing = index_by_task items []
    advance
        (record pr {
          status = record (pr.status) {
            phase = initial_phase pr.status.phase;
            tasks = summarize_tasks pr.spec.tasks existing (rollouts_by_name rollouts []);
          };
        })
        existing

  unfoldable pub reconcile_run : PipelineRun → M Duration
  reconcile_run pr = do
    done ← apply_cancel_if_requested pr
    let skip = done || is_terminal_phase (initial_phase pr.status.phase)
    if skip then pure (pos 0) else observe pr

  unfoldable pub reconcile : ObjectKey → M Duration
  reconcile key = with_found (λ tr. k.get_run tr key) (pos 0) reconcile_run

-- ResyncAll: an error of one send is only logged, so the sends are all made.
unfoldable pub resend : String → List PipelineRun → List StatusUpdatePayload
resend target [] = []
resend target (pr ∷ items) =
    let rest = resend target items in
    if is_terminal_phase pr.status.phase then rest else status_payload target pr ∷ rest

unfoldable pub resync_all : Cluster → String → M (Unit {0})
resync_all k target = do
  items ← read (λ tr. k.list_runs tr (("sdp.io/target", target) ∷ []))
  each (λ p. note (send_status p)) (resend target items)
