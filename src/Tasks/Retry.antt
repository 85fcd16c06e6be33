-- ===== src/Tasks/Retry.antt =====
-- How often a failed Job is tried again.

use Prim.Native.String.{◌++◌}
use software_distribution_pl.Prelude.{
  string_eq, ◌==◌, ℕ, zero, suc, ◌+◌, ◌<◌, pos, ltb_ℤ, +ℤ-pos, int32-pos, ◌≡◌, ◌∙◌, refl, sym, ap,
  true, false, arith,
}
use software_distribution_pl.Api.Meta.{Time}
use software_distribution_pl.Api.Pipeline.{PipelineRun, PipelineTaskSpec, TaskRunPhase}
use software_distribution_pl.Api.Task.{TaskRun}
use software_distribution_pl.Kube.{Cluster, Trace}
use software_distribution_pl.Pipelines.Changes.{build_task_run}
use software_distribution_pl.Tasks.{TaskReconciler}
use software_distribution_pl.Tasks.Changes.{retried, max_retries, begun, is_done}
use software_distribution_pl.Tasks.Attempts.{
  AllJobsFail, IsToStart, ltb_ℤ-irrefl, reconciled, fail_once, fail_times, starts, finds_failed,
  follow_job-retried, follow_job_final, named,
}

module _ (k : Cluster) (r : TaskReconciler) (world : AllJobsFail k) where
  -- A failed Job below the limit leaves the TaskRun begun and retried, and one at the limit leaves it Failed.
  fail_once-retried :
      (t : TaskRun) (tr : Trace)
      → IsToStart t
      → ltb_ℤ t.status.retry_count (max_retries t) ≡ true
      → (now : Time) × ((fail_once k r t tr).0 ≡ retried (begun t ("taskrun-" ++ t.meta.name) now))
  unfolding begun
  fail_once-retried t tr h below =
      let (now, e) = starts k r world t tr h in
      let u : TaskRun = (reconciled k r t tr).0 in
      (
        now,
        finds_failed k r world u (reconciled k r t tr).1 (ap (λ x. is_done x.status.phase) e)
              (ap (λ x. x.status.job_ref == "") e ∙ named k r world t.meta.name)
            ∙ follow_job-retried k r world u (reconciled k r t tr).1
                (ap (λ x. ltb_ℤ x.status.retry_count (max_retries x)) e ∙ below)
            ∙ ap retried e,
      )

  fail_once_final :
      (t : TaskRun) (tr : Trace)
      → IsToStart t
      → ltb_ℤ t.status.retry_count (max_retries t) ≡ false
      → (fail_once k r t tr).0.status.phase ≡ TaskRunPhase.failed
  unfolding begun
  fail_once_final t tr h at_limit =
      let (now, e) = starts k r world t tr h in
      let u : TaskRun = (reconciled k r t tr).0 in
      ap (λ x. x.status.phase)
        (finds_failed k r world u (reconciled k r t tr).1 (ap (λ x. is_done x.status.phase) e)
          (ap (λ x. x.status.job_ref == "") e ∙ named k r world t.meta.name))
      ∙ follow_job_final k r world u (reconciled k r t tr).1
          (ap (λ x. ltb_ℤ x.status.retry_count (max_retries x)) e ∙ at_limit)

  retried_counts :
      (t : TaskRun) (c : ℕ)
      → c < 2147483647
      → t.status.retry_count ≡ pos c
      → (retried t).status.retry_count ≡ pos (suc c)
  unfolding retried
  retried_counts t c h e =
      rw e (rw +ℤ-pos (rw (int32-pos (c + 1) (omega arith)) (ap pos (omega arith))))

  -- A TaskRun that has been retried c times and may be retried n times more takes n failed Jobs: it is
  -- still to start and its count is the limit. The next failed Job makes it Failed.
  fail_times_lem :
      (n c : ℕ) (t : TaskRun) (tr : Trace)
      → c + n < 2147483648
      → IsToStart t
      → t.status.retry_count ≡ pos c
      → max_retries t ≡ pos (c + n)
      → IsToStart (fail_times k r n t tr).0
        × ((fail_times k r (suc n) t tr).0.status.phase ≡ TaskRunPhase.failed)
  unfolding retried begun
  fail_times_lem zero c t tr b h e m =
      let same : t.status.retry_count ≡ max_retries t = e ∙ ap pos (omega arith) ∙ sym m in
      (h, fail_once_final t tr h (rw same (ltb_ℤ-irrefl (max_retries t))))
  fail_times_lem (suc n) c t tr b h e m =
      let below : ltb_ℤ t.status.retry_count (max_retries t) ≡ true = rw (e, m) (ground arith) in
      let (now, again) = fail_once-retried t tr h below in
      let u : TaskRun = (fail_once k r t tr).0 in
      let to_start : IsToStart u = record {
        unfinished = ap (λ x. is_done x.status.phase) again;
        jobless = ap (λ x. x.status.job_ref) again;
      } in
      let count : u.status.retry_count ≡ pos (suc c) =
        ap (λ x. x.status.retry_count) again
        ∙ retried_counts (begun t ("taskrun-" ++ t.meta.name) now) c (omega arith) e in
      let limit : max_retries u ≡ max_retries t = ap (λ x. max_retries x) again in
      fail_times_lem n (suc c) u (fail_once k r t tr).1 (omega arith) to_start count
        (limit ∙ m ∙ ap pos (omega arith))

  -- Where every write and owner reference is accepted, the ConfigMap of the hub's CA can be read
  -- or is missing and every Job fails, a TaskRun with maxRetries n that was never retried, is not
  -- finished and has no Job is so again after n rounds of a reconcile that starts a Job and one
  -- that finds it failed, and one more such round makes it Failed.
  pub fail_times_retry_budget :
      (n : ℕ) (t : TaskRun) (tr : Trace)
      → n < 2147483648
      → IsToStart t
      → t.status.retry_count ≡ pos 0
      → max_retries t ≡ pos n
      → IsToStart (fail_times k r n t tr).0
        × ((fail_times k r (suc n) t tr).0.status.phase ≡ TaskRunPhase.failed)
  fail_times_retry_budget n t tr b h e m =
      fail_times_lem n 0 t tr (omega arith) h e (m ∙ ap pos (omega arith))

  -- Under the same conditions, the TaskRun that buildTaskRun makes of a task is Failed after
  -- its first failed Job, whatever retry policy the task has.
  build_task_run_no_retry :
      (pr : PipelineRun) (task : PipelineTaskSpec) (tr : Trace)
      → (fail_once k r (build_task_run pr task) tr).0.status.phase ≡ TaskRunPhase.failed
  unfolding build_task_run
  build_task_run_no_retry pr task tr =
      fail_once_final (build_task_run pr task) tr (record { unfinished = refl; jobless = refl })
        refl
