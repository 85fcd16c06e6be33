-- ===== src/Pipelines/Cancel.antt =====
-- The cancel of a run: what it stops, what it may change, and what a finished run is safe from.
use software_distribution_pl.Prelude.{
  pos, ◌≡◌, refl, Bool, true, false, not, ◌||◌, if◌then◌else◌, none, some, List, [], ◌∷◌, has_key,
  values, Bool-cases, inl, inr, arith,
}
use software_distribution_pl.Api.Meta.{ObjectKey}
use software_distribution_pl.Api.Pipeline.{PipelineRun, PipelineRunPhase}
use software_distribution_pl.Api.Payloads.{ann_cancel_requested, StatusUpdatePayload}
use software_distribution_pl.Dag.{is_terminal_phase, cancelled_task_summary, index_by_task}
use software_distribution_pl.Api.Task.{TaskRun}
use software_distribution_pl.Api.Meta.{Time}
use software_distribution_pl.Kube.{
  Cluster, Trace, Call, ◌>>◌, pure, create_task_run, update_run_status, patch_run, delete_task_run,
  send_status, each, ok, emit, unless_missing,
}
use software_distribution_pl.Kube.Counts.{
  count, Avoids, pure-Avoids, >>=-Avoids, avoids, Returns, pure-Returns, >>=-Returns, >>-Returns,
  >>=-Avoids_returned,
}
use software_distribution_pl.Kube.Runs.{Accepts, calls, each-ok}
use software_distribution_pl.Pipelines.{
  Reconciler, reconcile_run, apply_cancel_if_requested, clear_cancel_annotations, cancel_task_runs,
  update_status, report_status, observe, cancel_run,
}
use software_distribution_pl.Pipelines.Changes.{
  initial_phase, key_of, cancel_message, without_request, status_payload,
}

abbrev pub is_create : Call → Bool
is_create (create_task_run t) = true
is_create _ = false

abbrev pub is_patch : Call → Bool
is_patch (patch_run b c) = true
is_patch _ = false

abbrev pub is_no_patch : Call → Bool
is_no_patch c = not (is_patch c)

or_true : (b : Bool) → (b || true) ≡ true
or_true true = refl
or_true false = refl

-- The delete of a TaskRun.
abbrev pub delete : TaskRun → Call
delete t = delete_task_run (key_of t.meta)

module _ (k : Cluster) (r : Reconciler) where
  -- A kind of call that holds no write of a run's status and no frame is not made by a status update.
  pub update_status-Avoids :
      (p : Call → Bool)
      → ((pr : PipelineRun) → p (update_run_status pr) ≡ false)
      → ((s : StatusUpdatePayload) → p (send_status s) ≡ false)
      → (pr : PipelineRun) → Avoids p (update_status k r pr)
  unfolding update_status report_status
  update_status-Avoids p h g pr = search (avoids, h, g) depth 12

  clear-Avoids :
      (p : Call → Bool)
      → ((b c : PipelineRun) → p (patch_run b c) ≡ false)
      → (pr : PipelineRun) → Avoids p (clear_cancel_annotations k r pr)
  unfolding clear_cancel_annotations
  clear-Avoids p h pr = search (avoids, h)

  cancel_task_runs-Avoids :
      (p : Call → Bool)
      → ((key : ObjectKey) → p (delete_task_run key) ≡ false)
      → (pr : PipelineRun) → Avoids p (cancel_task_runs k r pr)
  unfolding cancel_task_runs
  cancel_task_runs-Avoids p h pr = search (avoids, h) depth 12

  cancel_run-Avoids :
      (p : Call → Bool)
      → ((pr : PipelineRun) → p (update_run_status pr) ≡ false)
      → ((s : StatusUpdatePayload) → p (send_status s) ≡ false)
      → ((key : ObjectKey) → p (delete_task_run key) ≡ false)
      → ((b c : PipelineRun) → p (patch_run b c) ≡ false)
      → (pr : PipelineRun) → Avoids p (cancel_run k r pr)
  unfolding cancel_run
  cancel_run-Avoids p h g d c pr =
      search (avoids, update_status-Avoids p h g, cancel_task_runs-Avoids p d, clear-Avoids p c)
        depth 12

  apply-Avoids :
      (p : Call → Bool)
      → ((pr : PipelineRun) → p (update_run_status pr) ≡ false)
      → ((s : StatusUpdatePayload) → p (send_status s) ≡ false)
      → ((key : ObjectKey) → p (delete_task_run key) ≡ false)
      → ((b c : PipelineRun) → p (patch_run b c) ≡ false)
      → (pr : PipelineRun) → Avoids p (apply_cancel_if_requested k r pr)
  unfolding apply_cancel_if_requested
  apply-Avoids p h g d c pr = search (avoids, cancel_run-Avoids p h g d c, clear-Avoids p c) depth 8

  Returns-true : Returns (λ b. b ≡ true) (pure true)
  Returns-true = pure-Returns true refl

  cancel_run-Returns : (pr : PipelineRun) → Returns (λ b. b ≡ true) (cancel_run k r pr)
  unfolding cancel_run
  cancel_run-Returns pr = search (>>=-Returns, >>-Returns, Returns-true) depth 8

  -- A requested cancel is always handled.
  pub apply-Returns :
      (pr : PipelineRun)
      → has_key ann_cancel_requested pr.meta.annotations ≡ true
      → Returns (λ b. b ≡ true) (apply_cancel_if_requested k r pr)
  unfolding apply_cancel_if_requested
  apply-Returns pr h =
      let stale : Returns (λ b. b ≡ true) (clear_cancel_annotations k r pr >> pure true) =
        >>-Returns (clear_cancel_annotations k r pr) Returns-true in
      elim (Bool-cases (is_terminal_phase pr.status.phase)) [
        | inl e ↦ rw (h, apply_cancel_if_requested) (rw e stale)
        | inr e ↦ rw (h, apply_cancel_if_requested) (rw e (cancel_run-Returns pr))
      ]

  cancelled-Avoids :
      (pr : PipelineRun)
      → has_key ann_cancel_requested pr.meta.annotations ≡ true
      → Avoids is_create (reconcile_run k r pr)
  unfolding reconcile_run
  cancelled-Avoids pr h =
      >>=-Avoids_returned (λ b. b ≡ true)
        {f = λ done.
          if done || is_terminal_phase (initial_phase pr.status.phase)
          then pure (pos 0)
          else observe k r pr}
        (apply-Avoids is_create (λ _. refl) (λ _. refl) (λ _. refl) (λ _ _. refl) pr)
        (apply-Returns pr h) (λ done e. rw e (pure-Avoids (pos 0)))

  -- While the cancel annotation is on a run, no reconcile of it creates a TaskRun, whatever the
  -- cluster answers.
  pub reconcile_run-cancel :
      (pr : PipelineRun)
      → has_key ann_cancel_requested pr.meta.annotations ≡ true
      → (tr : Trace) → count is_create (reconcile_run k r pr tr).0 ≡ count is_create tr
  reconcile_run-cancel pr h tr = (cancelled-Avoids pr h).same tr

  finished-Avoids :
      (pr : PipelineRun)
      → is_terminal_phase pr.status.phase ≡ true
      → Avoids is_no_patch (apply_cancel_if_requested k r pr)
  unfolding apply_cancel_if_requested
  finished-Avoids pr h =
      rw (h, apply_cancel_if_requested)
        (search (avoids, clear-Avoids is_no_patch (λ _ _. refl)) depth 8)

  initial_phase-terminal :
      (phase : PipelineRunPhase)
      → is_terminal_phase phase ≡ true
      → is_terminal_phase (initial_phase phase) ≡ true
  unfolding is_terminal_phase
  initial_phase-terminal phase h = ground arith

  -- A reconcile of a run in a terminal phase makes no call but patches of the run, whatever the
  -- cluster answers and whether or not a cancel is requested.
  pub reconcile_run-terminal :
      (pr : PipelineRun)
      → is_terminal_phase pr.status.phase ≡ true
      → (tr : Trace) → count is_no_patch (reconcile_run k r pr tr).0 ≡ count is_no_patch tr
  unfolding reconcile_run
  reconcile_run-terminal pr h tr =
      (>>=-Avoids
          {f = λ done.
            if done || is_terminal_phase (initial_phase pr.status.phase)
            then pure (pos 0)
            else observe k r pr}
          (finished-Avoids pr h)
          (λ done.
            rw (initial_phase-terminal pr.status.phase h)
              (rw (or_true done) (pure-Avoids (pos 0))))).same
        tr

  pub update_status-calls :
      (pr : PipelineRun) (tr : Trace)
      → Accepts k
      → r.connected ≡ true
      → ((t : Trace) (q : PipelineRun) → k.stored_run t q ≡ q)
      → update_status k r pr tr
        ≡ (send_status (status_payload r.target_name pr) ∷ update_run_status pr ∷ tr, ok pr)
  unfolding update_status report_status
  update_status-calls pr tr acc conn same =
      ground (arith, acc tr (update_run_status pr), same (update_run_status pr ∷ tr) pr)

  delete-calls :
      (ts : List TaskRun) (tr : Trace)
      → Accepts k
      → each (λ t. unless_missing (emit k (delete_task_run (key_of t.meta)))) ts tr
        ≡ (calls delete ts tr, ok tt)
  delete-calls ts tr acc = each-ok _ delete (λ t tr'. ground (arith, acc tr' (delete t))) ts tr

  -- The run that the cancel stores: Cancelled, with the time, the operator's name and the final report.
  abbrev pub cancelled_with : PipelineRun → List TaskRun → Time → PipelineRun
  cancelled_with pr items now = record pr {
    status = record (pr.status) {
      phase = PipelineRunPhase.cancelled;
      completion_time = some now;
      current_approval = none;
      message = cancel_message pr;
      tasks = cancelled_task_summary pr.spec.tasks (index_by_task items []) now (cancel_message pr);
    };
  }

  -- Where every write is accepted and echoed, the hub is connected and the List answers, the
  -- cancel of an unfinished run deletes each TaskRun of the run in the order in which the map is
  -- visited, stores and reports the run as Cancelled with the final task summary, patches the
  -- cancel annotations off, and makes no other call.
  pub apply_cancel_if_requested-calls :
      (pr : PipelineRun) (tr : Trace) (items : List TaskRun)
      → Accepts k
      → r.connected ≡ true
      → has_key ann_cancel_requested pr.meta.annotations ≡ true
      → is_terminal_phase pr.status.phase ≡ false
      → k.list_task_runs tr (some pr.meta.namespace) (("sdp.io/pipeline-run", pr.meta.name) ∷ [])
        ≡ ok items
      → ((t : Trace) (q : PipelineRun) → k.stored_run t q ≡ q)
      → let final = cancelled_with pr items (k.now tr) in
        let stopped = calls delete (k.visit (values (index_by_task items []))) tr in
        apply_cancel_if_requested k r pr tr ≡ (
          patch_run final (without_request final)
              ∷ send_status (status_payload r.target_name final)
              ∷ update_run_status final
              ∷ stopped,
          ok true,
        )
  unfolding apply_cancel_if_requested cancel_run cancel_task_runs clear_cancel_annotations
  apply_cancel_if_requested-calls pr tr items acc conn asked live listed same =
      let final = cancelled_with pr items (k.now tr) in
      let stopped = calls delete (k.visit (values (index_by_task items []))) tr in
      let reported =
        send_status (status_payload r.target_name final) ∷ update_run_status final ∷ stopped in
      ground (
        arith,
        delete-calls (k.visit (values (index_by_task items []))) tr acc,
        update_status-calls final stopped acc conn same,
        acc reported (patch_run final (without_request final)),
      )
