-- ===== src/Pipelines/Phases.antt =====
-- A reconcile of a PipelineRun keeps to the life of a run.
use software_distribution_pl.Prelude.{
  string_eq, ◌≡◌, refl, Bool, true, not, ◌||◌, Bool-cases, inl, inr, Option, none, some, List, [],
  ◌∷◌, if◌then◌else◌, Map, pos, arith,
}
use software_distribution_pl.Api.Meta.{Duration}
use software_distribution_pl.Api.Pipeline.{
  PipelineRun, PipelineRunStatus, PipelineRunPhase, PipelineTaskSpec, ApprovalStatus,
}
use software_distribution_pl.Api.Rollout.{Rollout}
use software_distribution_pl.Api.Task.{TaskRun}
use software_distribution_pl.Kube.{Cluster, M, ok, answer, create_task_run, pure}
use software_distribution_pl.Kube.Writes.{
  Only, pure-Only, unless_exists-Only, >>=-Only, emit-Only, >>-Only, read-Only, each-Only, if-Only,
  >>=-Only_returned,
}
use software_distribution_pl.Dag.{
  index_by_task, find_runnable_tasks, all_tasks_succeeded, has_failed_task, find_pending_approval,
  rollouts_by_name, summarize_tasks, is_terminal_phase,
}
use software_distribution_pl.Dag.Summary.{summarize_tasks-succeeded}
use software_distribution_pl.Pipelines.Cancel.{apply-Returns}
use software_distribution_pl.Pipelines.{
  Reconciler, create_task_runs, schedule, advance, observe, reconcile_run,
}
use software_distribution_pl.Pipelines.Changes.{initial_phase, is_empty, build_task_run}
use software_distribution_pl.Pipelines.Life.{
  is_requested, IsOpen, Serves, starts, waits, fails, runs, succeeds, stays, store-Only,
  ensure_run_rbac-Only, apply_cancel_if_requested-Only,
}

module _ (k : Cluster) (r : Reconciler) (pr : PipelineRun) where
  -- The run with another status.
  abbrev with : PipelineRunStatus → PipelineRun
  with st = record pr { status = st }

  create_task_runs-Only :
      (st : PipelineRunStatus)
      → IsOpen pr
      → (runnable : List PipelineTaskSpec)
      → Only (Serves k r pr) (create_task_runs k r (with st) runnable)
  unfolding create_task_runs build_task_run
  create_task_runs-Only st o runnable = each-Only runnable (λ task.
      >>-Only (read-Only (λ tr. answer (k.set_owner pr.meta (build_task_run pr task).meta))) (
        unless_exists-Only
          (emit-Only k (create_task_run (build_task_run (with st) task)) (starts o task))))

  -- The status of a run whose TaskRuns are listed, with no approval pending.
  abbrev seen : Map TaskRun → Map Rollout → PipelineRunStatus
  seen existing rollouts = record (pr.status) {
    phase = initial_phase pr.status.phase;
    tasks = summarize_tasks pr.spec.tasks existing rollouts;
    current_approval = none;
  }

  schedule-Only :
      (existing : Map TaskRun) (rollouts : Map Rollout)
      → IsOpen pr
      → Only (Serves k r pr) (schedule k r (with (seen existing rollouts)) existing)
  unfolding schedule
  schedule-Only existing rollouts o =
      let st = seen existing rollouts in
      let runnable = find_runnable_tasks pr.spec.tasks existing in
      if-Only (not (is_empty runnable))
        (λ _. >>-Only (ensure_run_rbac-Only k r pr o) (
          >>-Only (create_task_runs-Only st o runnable) (
            store-Only k r pr (with (record st { phase = PipelineRunPhase.running }))
              (runs o refl refl refl, refl, refl, refl))))
        (λ _.
          if-Only (all_tasks_succeeded pr.spec.tasks existing)
            (λ all. >>=-Only (read-Only (λ tr. ok (k.now tr))) (λ now.
              store-Only k r pr
                (with
                  (record st { phase = PipelineRunPhase.succeeded; completion_time = some now }))
                (
                  succeeds o refl refl
                      (summarize_tasks-succeeded pr.spec.tasks existing rollouts all),
                  refl,
                  refl,
                  refl,
                )))
            (λ _. store-Only k r pr (with st) (stays o refl refl refl, refl, refl, refl)))

  advance-Only :
      (existing : Map TaskRun) (rollouts : Map Rollout)
      → IsOpen pr
      → (a : Option ApprovalStatus) → find_pending_approval pr.spec.tasks existing ≡ a
      → (let st = record (seen existing rollouts) {
        current_approval = pr.status.current_approval;
      } in
          Only (Serves k r pr) (advance k r (with st) existing))
  unfolding advance
  advance-Only existing rollouts o (some a) e =
      rw (e, advance)
        (store-Only k r pr _ (waits o refl (λ h. ground (arith, h)) refl, refl, refl, refl))
  advance-Only existing rollouts o none e =
      rw (e, advance)
        (if-Only (has_failed_task existing)
          (λ _. store-Only k r pr _ (fails o refl refl refl, refl, refl, refl))
          (λ _. schedule-Only existing rollouts o))

  observe-Only : IsOpen pr → Only (Serves k r pr) (observe k r pr)
  unfolding observe
  observe-Only o =
      let labels = ("sdp.io/pipeline-run", pr.meta.name) ∷ [] in
      let namespace = some pr.meta.namespace in
      >>=-Only (read-Only (λ tr. k.list_task_runs tr namespace labels)) (λ items.
        >>=-Only (read-Only (λ tr. k.list_rollouts tr namespace labels)) (λ rollouts.
          let existing = index_by_task items [] in
          advance-Only existing (rollouts_by_name rollouts []) o
            (find_pending_approval pr.spec.tasks existing) refl))

  -- Whatever the cluster answers, a reconcile of a run makes no call but these: TaskRuns of the
  -- run, and its service account, role and role binding, are created, only while the run is open,
  -- that is neither finished nor to be cancelled; TaskRuns are deleted and the request is patched
  -- off a run, only on a cancel; a status is stored that is for the same run with the same start
  -- and follows the one before; and such a status is reported as it is stored. An open run waits
  -- for an approval, fails, runs, stays in its phase, or succeeds with every task reported as
  -- Succeeded; a cancelled one is reported with every task in a final phase.
  pub reconcile_run-Serves : Only (Serves k r pr) (reconcile_run k r pr)
  unfolding reconcile_run
  reconcile_run-Serves =
      let next : Bool → M Duration = λ done.
        if done || is_terminal_phase (initial_phase pr.status.phase)
        then pure (pos 0)
        else observe k r pr in
      elim (Bool-cases (is_requested pr)) [
        | inl asked ↦
            >>=-Only_returned (λ b. b ≡ true) {f = next} (apply_cancel_if_requested-Only k r pr)
              (apply-Returns k r pr asked) (λ done e. rw e (pure-Only (pos 0)))
        | inr calm ↦ >>=-Only {f = next} (apply_cancel_if_requested-Only k r pr) (λ done.
            if-Only (done || is_terminal_phase (initial_phase pr.status.phase))
              (λ _. pure-Only (pos 0))
              (λ live. observe-Only (record { unrequested = calm; unfinished = ground arith })))
      ]
