-- ===== src/Pipelines/Outcome.antt =====
-- Which phase a reconcile gives a run, and which TaskRuns it creates.
use software_distribution_pl.Prelude.{
  pos, ◌≡◌, ◌≢◌, refl, Bool, true, false, not, Bool-cases, Option-cases, String, string_eq, eq_iff,
  none, List, [], ◌∷◌, Map, inl, inr, arith,
}
use software_distribution_pl.Api.Pipeline.{PipelineRun, PipelineRunPhase, PipelineTaskSpec}
use software_distribution_pl.Api.Meta.{ObjectMeta}
use software_distribution_pl.Api.Task.{TaskRun}
use software_distribution_pl.Dag.{
  find_pending_approval, has_failed_task, find_runnable_tasks, all_tasks_succeeded,
}
use software_distribution_pl.Kube.{
  Cluster, Trace, Call, ◌>>=◌, ◌>>◌, pure, create_task_run, update_run_status, unless_exists, emit,
  ok, send_status,
}
use software_distribution_pl.Kube.Counts.{
  count, Avoids, avoids, pure-Avoids, if-Avoids, >>-Avoids, >>=-Avoids,
}
use software_distribution_pl.Kube.Runs.{Accepts, calls, each-ok}
use software_distribution_pl.Pipelines.{
  Reconciler, advance, schedule, update_status, report_status, ensure_run_rbac, create_task_runs,
}
use software_distribution_pl.Pipelines.Changes.{is_empty, build_task_run, check, status_payload}
use software_distribution_pl.Pipelines.Cancel.{is_create, update_status-Avoids, update_status-calls}

abbrev is_succeeded_run : PipelineRunPhase → Bool
is_succeeded_run PipelineRunPhase.succeeded = true
is_succeeded_run _ = false

-- A write of the phase Succeeded.
abbrev pub is_success : Call → Bool
is_success (update_run_status pr) = is_succeeded_run pr.status.phase
is_success _ = false

module _ (k : Cluster) (r : Reconciler) where
  update-Avoids_create : (pr : PipelineRun) → Avoids is_create (update_status k r pr)
  update-Avoids_create = update_status-Avoids k r is_create (λ _. refl) (λ _. refl)

  update-Avoids_success :
      (pr : PipelineRun)
      → is_succeeded_run pr.status.phase ≡ false
      → Avoids is_success (update_status k r pr)
  unfolding update_status report_status
  update-Avoids_success pr h = search (avoids, h) depth 10

  -- Once a task has Failed and no approval is pending, a round creates no TaskRun, whatever the
  -- cluster answers.
  pub advance_failed :
      (pr : PipelineRun) (existing : Map TaskRun)
      → find_pending_approval pr.spec.tasks existing ≡ none
      → has_failed_task existing ≡ true
      → (tr : Trace) → count is_create (advance k r pr existing tr).0 ≡ count is_create tr
  unfolding advance
  advance_failed pr existing calm failed tr =
      let quiet : Avoids is_create (
          update_status k r (record pr {
            status = record (pr.status) {
              current_approval = none;
              phase = PipelineRunPhase.failed;
            };
          })
          >>= λ _. pure (pos 0)) =
        >>=-Avoids (update-Avoids_create _) (λ _. pure-Avoids (pos 0)) in
      rw (calm, advance) (rw (failed, advance) (quiet.same tr))

  rbac-Avoids : (ns sa : String) → Avoids is_success (ensure_run_rbac k r ns sa)
  unfolding ensure_run_rbac
  rbac-Avoids ns sa = search avoids depth 12

  create-Avoids :
      (pr : PipelineRun) (ts : List PipelineTaskSpec)
      → Avoids is_success (create_task_runs k r pr ts)
  unfolding create_task_runs
  create-Avoids pr ts = search avoids depth 12

  waiting-Avoids :
      (pr : PipelineRun)
      → is_succeeded_run pr.status.phase ≡ false
      → Avoids is_success (update_status k r pr >>= λ _. pure (pos 0))
  waiting-Avoids pr h = >>=-Avoids (update-Avoids_success pr h) (λ _. pure-Avoids (pos 0))

  schedule-Avoids :
      (pr : PipelineRun) (existing : Map TaskRun)
      → is_succeeded_run pr.status.phase ≡ false
      → all_tasks_succeeded pr.spec.tasks existing ≡ false
      → Avoids is_success (schedule k r pr existing)
  unfolding schedule
  schedule-Avoids pr existing live left =
      let runnable = find_runnable_tasks pr.spec.tasks existing in
      let started : Avoids is_success (
          ensure_run_rbac k r pr.spec.target_namespace pr.spec.service_account_name
          >> (create_task_runs k r pr runnable
              >> (update_status k r
                    (record pr { status = record (pr.status) { phase = PipelineRunPhase.running } })
                  >>= λ _. pure (pos 0)))) =
        >>-Avoids (rbac-Avoids _ _)
          (>>-Avoids (create-Avoids pr runnable) (waiting-Avoids _ refl)) in
      let idle : Avoids is_success (update_status k r pr >>= λ _. pure (pos 0)) =
        >>=-Avoids (update-Avoids_success pr live) (λ _. pure-Avoids (pos 0)) in
      rw (left, schedule) (if-Avoids (not (is_empty runnable)) started idle)

  advance-Avoids :
      (pr : PipelineRun) (existing : Map TaskRun)
      → is_succeeded_run pr.status.phase ≡ false
      → all_tasks_succeeded pr.spec.tasks existing ≡ false
      → Avoids is_success (advance k r pr existing)
  unfolding advance
  advance-Avoids pr existing live left =
      elim (Option-cases (find_pending_approval pr.spec.tasks existing)) [
        | inr (a, e) ↦ rw (e, advance) (waiting-Avoids _ refl)
        | inl e ↦ elim (Bool-cases (has_failed_task existing)) [
          | inl f ↦ rw (e, advance) (rw (f, advance) (waiting-Avoids _ refl))
          | inr f ↦ rw (e, advance) (rw (f, advance) (schedule-Avoids _ existing live left))
        ]
      ]

  -- A round on a run that is not Succeeded yet never stores the phase Succeeded while some task of
  -- the run has not Succeeded, whatever the cluster answers.
  pub advance_succeeded :
      (pr : PipelineRun) (existing : Map TaskRun)
      → pr.status.phase ≢ PipelineRunPhase.succeeded
      → all_tasks_succeeded pr.spec.tasks existing ≡ false
      → (tr : Trace) → count is_success (advance k r pr existing tr).0 ≡ count is_success tr
  advance_succeeded pr existing live left tr =
      (advance-Avoids pr existing (ground arith) left).same tr

  -- The TaskRun that is created for a task.
  abbrev pub creation : PipelineRun → PipelineTaskSpec → Call
  creation pr task = create_task_run (build_task_run pr task)

  -- Where every write is accepted and echoed, owner references can be set, the hub is connected,
  -- the run names no service account and some task is runnable, a round creates one TaskRun for
  -- each runnable task in order, then stores and reports the phase Running, and makes no other
  -- call.
  pub schedule-calls :
      (pr : PipelineRun) (existing : Map TaskRun) (tr : Trace)
      → Accepts k
      → ((owner object : ObjectMeta) → k.set_owner owner object ≡ none)
      → ((t : Trace) (q : PipelineRun) → k.stored_run t q ≡ q)
      → r.connected ≡ true
      → pr.spec.service_account_name ≡ ""
      → find_runnable_tasks pr.spec.tasks existing ≢ []
      → let running = record pr {
        status = record (pr.status) { phase = PipelineRunPhase.running };
      } in
        schedule k r pr existing tr ≡ (
          send_status (status_payload r.target_name running)
              ∷ update_run_status running
              ∷ calls (creation pr) (find_runnable_tasks pr.spec.tasks existing) tr,
          ok (pos 0),
        )
  unfolding schedule create_task_runs ensure_run_rbac
  schedule-calls pr existing tr acc own same conn legacy some_task =
      let runnable = find_runnable_tasks pr.spec.tasks existing in
      let running : PipelineRun = record pr {
        status = record (pr.status) { phase = PipelineRunPhase.running };
      } in
      let made = calls (creation pr) runnable tr in
      ground (
        arith,
        legacy,
        each-ok
            (λ task.
              check (k.set_owner pr.meta (build_task_run pr task).meta)
              >> unless_exists (emit k (create_task_run (build_task_run pr task))))
            (creation pr)
            (λ task tr'.
              ground (arith, own pr.meta (build_task_run pr task).meta, acc tr' (creation pr task)))
            runnable tr,
        update_status-calls k r running made acc conn same,
        eq_iff pr.spec.service_account_name "",
      )
