-- ===== src/Pipelines/Life.antt =====
-- The life of a PipelineRun: which statuses a reconcile may store after which, what it may create or delete, and
-- that a cancel keeps to it.
use Prim.Native.String.{◌++◌}
use software_distribution_pl.Prelude.{
  string_eq, ◌==◌, ◌≡◌, refl, Bool, true, false, not, ◌||◌, none, some, [], All, has_key, values,
  pos, arith,
}
use software_distribution_pl.Api.Pipeline.{
  PipelineRun, PipelineRunPhase, PipelineTaskSpec, TaskRunPhase, TaskRunStatusSummary,
}
use software_distribution_pl.Api.Task.{TaskRun}
use software_distribution_pl.Api.Payloads.{ann_cancel_requested}
use software_distribution_pl.Kube.{
  Cluster, Trace, Call, ◌>>◌, ◌>>=◌, ok, update_run_status, patch_run, create_task_run,
  delete_task_run, pure, send_status, create_service_account, create_role, create_role_binding,
}
use software_distribution_pl.Kube.Writes.{
  Only, pure-Only, unless_exists-Only, unless_missing-Only, >>=-Only, emit-Only, >>-Only, read-Only,
  note-Only, each-Only, if-Only, read_then-Only,
}
use software_distribution_pl.Dag.{
  index_by_task, cancelled_task_summary, is_terminal_phase, is_terminal_task_phase,
}
use software_distribution_pl.Dag.Summary.{cancelled_task_summary_terminal}
use software_distribution_pl.Pipelines.{
  Reconciler, report_status, update_status, ensure_run_rbac, clear_cancel_annotations,
  cancel_task_runs, cancel_run, apply_cancel_if_requested,
}
use software_distribution_pl.Pipelines.Changes.{
  initial_phase, build_task_run, without_request, cancel_message, key_of, status_payload,
}

-- A cancel is asked for.
abbrev pub is_requested : PipelineRun → Bool
is_requested pr = has_key ann_cancel_requested pr.meta.annotations

-- The run is neither finished nor to be cancelled.
pub record IsOpen (pr : PipelineRun) : Type 0 where
  pub unrequested : is_requested pr ≡ false
  pub unfinished : is_terminal_phase (initial_phase pr.status.phase) ≡ false

-- The statuses that may follow that of a run.
pub data Step (pr s : PipelineRun) : Type 0 where
  cancels :
      is_requested pr ≡ true
      → is_terminal_phase pr.status.phase ≡ false
      → s.status.phase ≡ PipelineRunPhase.cancelled
      → s.status.current_approval ≡ none
      → All (λ (e : TaskRunStatusSummary). is_terminal_task_phase e.phase ≡ true) s.status.tasks
      → Step pr s
  waits :
      IsOpen pr
      → s.status.phase ≡ PipelineRunPhase.waiting_approval
      → (s.status.current_approval ≡ none → ⊥)
      → s.status.completion_time ≡ pr.status.completion_time
      → Step pr s
  fails :
      IsOpen pr
      → s.status.phase ≡ PipelineRunPhase.failed
      → s.status.current_approval ≡ none
      → s.status.completion_time ≡ pr.status.completion_time
      → Step pr s
  runs :
      IsOpen pr
      → s.status.phase ≡ PipelineRunPhase.running
      → s.status.current_approval ≡ none
      → s.status.completion_time ≡ pr.status.completion_time
      → Step pr s
  succeeds :
      IsOpen pr
      → s.status.phase ≡ PipelineRunPhase.succeeded
      → s.status.current_approval ≡ none
      → All (λ (e : TaskRunStatusSummary). e.phase ≡ TaskRunPhase.succeeded) s.status.tasks
      → Step pr s
  stays :
      IsOpen pr
      → s.status.phase ≡ initial_phase pr.status.phase
      → s.status.current_approval ≡ none
      → s.status.completion_time ≡ pr.status.completion_time
      → Step pr s

-- A status for the same run, with the same start, that follows the one before.
abbrev pub MayStore : PipelineRun → PipelineRun → Type 0
MayStore pr s =
    Step pr s
    × (s.meta ≡ pr.meta)
    × (s.spec ≡ pr.spec)
    × (s.status.start_time ≡ pr.status.start_time)

module _ (k : Cluster) (r : Reconciler) (pr : PipelineRun) where
  -- A call that a reconcile of the run may make; no other is one.
  pub data Serves : Call → Type 0 where
    stores : (s : PipelineRun) → MayStore pr s → Serves (update_run_status s)
    reports :
        (s : PipelineRun)
        → MayStore pr s
        → (tr : Trace) → Serves (send_status (status_payload r.target_name (k.stored_run tr s)))
    starts :
        IsOpen pr → (task : PipelineTaskSpec) → Serves (create_task_run (build_task_run pr task))
    accounts :
        IsOpen pr
        → Serves (
            create_service_account (record {
              namespace = pr.spec.target_namespace;
              name = pr.spec.service_account_name;
            }))
    permits :
        IsOpen pr
        → Serves
            (create_role (record { namespace = pr.spec.target_namespace; name = "sdp-deploy" }))
    binds :
        IsOpen pr
        → Serves (
            create_role_binding
              (record {
                namespace = pr.spec.target_namespace;
                name = "sdp-deploy-" ++ pr.spec.service_account_name;
              })
              pr.spec.service_account_name)
    deletes :
        is_requested pr ≡ true
        → is_terminal_phase pr.status.phase ≡ false
        → (t : TaskRun) → Serves (delete_task_run (key_of t.meta))
    clears : is_requested pr ≡ true → (s : PipelineRun) → Serves (patch_run s (without_request s))

  report_status-Only :
      (s : PipelineRun)
      → MayStore pr s
      → (tr : Trace) → Only Serves (report_status k r (k.stored_run tr s))
  unfolding report_status
  report_status-Only s h tr =
      if-Only (not r.connected) (λ _. pure-Only tt)
        (λ _. note-Only (send_status _) (reports s h tr))

  pub update_status-Only : (s : PipelineRun) → MayStore pr s → Only Serves (update_status k r s)
  unfolding update_status
  update_status-Only s h = >>-Only (emit-Only k (update_run_status s) (stores s h)) (
      read_then-Only (λ tr. k.stored_run tr s) (λ stored. report_status k r stored >> pure stored)
        (λ tr. >>-Only (report_status-Only s h tr) (pure-Only (k.stored_run tr s))))

  -- The end of a round.
  pub store-Only :
      (s : PipelineRun) → MayStore pr s → Only Serves (update_status k r s >>= λ _. pure (pos 0))
  store-Only s h = >>=-Only (update_status-Only s h) (λ _. pure-Only (pos 0))

  pub ensure_run_rbac-Only :
      IsOpen pr
      → Only Serves (ensure_run_rbac k r pr.spec.target_namespace pr.spec.service_account_name)
  unfolding ensure_run_rbac
  ensure_run_rbac-Only o =
      let sa = pr.spec.service_account_name in
      let namespace = pr.spec.target_namespace in
      if-Only (sa == "" || namespace == "") (λ _. pure-Only tt)
        (λ _. >>-Only (unless_exists-Only (emit-Only k (create_service_account _) (accounts o))) (
          >>-Only (unless_exists-Only (emit-Only k (create_role _) (permits o)))
            (unless_exists-Only (emit-Only k (create_role_binding _ sa) (binds o)))))

  clear_cancel_annotations-Only :
      is_requested pr ≡ true → (s : PipelineRun) → Only Serves (clear_cancel_annotations k r s)
  unfolding clear_cancel_annotations
  clear_cancel_annotations-Only asked s =
      if-Only _ (λ _. pure-Only tt)
        (λ _. emit-Only k (patch_run s (without_request s)) (clears asked s))

  cancel_task_runs-Only :
      is_requested pr ≡ true
      → is_terminal_phase pr.status.phase ≡ false
      → Only Serves (cancel_task_runs k r pr)
  unfolding cancel_task_runs
  cancel_task_runs-Only asked live = >>=-Only (read-Only _) (λ items.
      >>-Only
        (each-Only (k.visit (values (index_by_task items []))) (λ t.
          unless_missing-Only
            (emit-Only k (delete_task_run (key_of t.meta)) (deletes asked live t))))
        (pure-Only (index_by_task items [])))

  cancel_run-Only :
      is_requested pr ≡ true
      → is_terminal_phase pr.status.phase ≡ false
      → Only Serves (cancel_run k r pr)
  unfolding cancel_run
  cancel_run-Only asked live = >>=-Only (read-Only (λ tr. ok (k.now tr))) (λ now.
      >>=-Only (cancel_task_runs-Only asked live) (λ existing.
        >>=-Only
          (update_status-Only
            (record pr {
              status = record (pr.status) {
                phase = PipelineRunPhase.cancelled;
                completion_time = some now;
                current_approval = none;
                message = cancel_message pr;
                tasks = cancelled_task_summary pr.spec.tasks existing now (cancel_message pr);
              };
            })
            (
              cancels asked live refl refl
                  (cancelled_task_summary_terminal pr.spec.tasks existing now (cancel_message pr)),
              refl,
              refl,
              refl,
            ))
          (λ stored. >>-Only (clear_cancel_annotations-Only asked stored) (pure-Only true))))

  pub apply_cancel_if_requested-Only : Only Serves (apply_cancel_if_requested k r pr)
  unfolding apply_cancel_if_requested
  apply_cancel_if_requested-Only =
      if-Only (not (is_requested pr)) (λ _. pure-Only false)
        (λ asked.
          if-Only (is_terminal_phase pr.status.phase)
            (λ _. >>-Only (clear_cancel_annotations-Only (ground arith) pr) (pure-Only true))
            (λ live. cancel_run-Only (ground arith) live))
