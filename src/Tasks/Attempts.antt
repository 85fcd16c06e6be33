-- ===== src/Tasks/Attempts.antt =====
-- A reconcile that starts a Job and one that finds it failed, where the cluster accepts what is asked of it.
use Prim.Native.String.append
use Prim.Native.String.compare
use Prim.Native.String.{◌++◌}
use software_distribution_pl.Jobs.{build}
use software_distribution_pl.Api.Job.{Job}
use software_distribution_pl.Prelude.{
  ◌⊎◌, inl, inr, none, String, string_eq, ◌==◌, Bool-cases, ℕ, zero, suc, ℤ, pos, negsuc, ltb_ℤ,
  ◌≡◌, ◌∙◌, refl, ap, true, false, [], ◌∷◌, arith,
}
use software_distribution_pl.Api.Meta.{Time, Duration, ObjectMeta, ObjectKey}
use software_distribution_pl.Api.Pipeline.{TaskRunPhase}
use software_distribution_pl.Api.Task.{TaskRun}
use software_distribution_pl.Kube.{
  Cluster, Trace, Call, ok, err, api, not_found, M, Result, ◌>>=◌, ◌>>◌, read, pure, unless_exists,
  create_job, create_ca_map, update_ca_map, emit, JobStatus, update_task_status, delete_job,
}
use software_distribution_pl.Kube.Runs.{Accepts}
use software_distribution_pl.Pipelines.Changes.{check}
use software_distribution_pl.Tasks.{
  TaskReconciler, follow_job, reconcile_job, start_job, ensure_hub_ca_map, ensure_ca_map,
  maybe_stream_logs, save,
}
use software_distribution_pl.Tasks.Changes.{retried, finished, max_retries, begun, is_done}

-- The TaskRun that was stored last, or the one given if none was.
abbrev pub stored : TaskRun → Trace → TaskRun
stored t [] = t
stored t (c ∷ tr) = let older = stored t tr in elim c [ update_task_status s ↦ s | _ ↦ older ]

-- A Job that has failed.
abbrev pub failed_job : JobStatus
failed_job = record { succeeded = pos 0; failed = pos 1 }

pub ltb_ℤ-irrefl : (z : ℤ) → ltb_ℤ z z ≡ false
ltb_ℤ-irrefl (pos n) = ground arith
ltb_ℤ-irrefl (negsuc n) = ground arith

-- A cluster that accepts every write and owner, whose ConfigMaps can be read and on which every Job fails.
pub record AllJobsFail (k : Cluster) : Type 0 where
  pub accepts : Accepts k
  pub owns : (owner object : ObjectMeta) → k.set_owner owner object ≡ none
  pub reads :
      (tr : Trace) (key : ObjectKey)
      → (k.get_ca_map tr key ≡ err (api not_found))
        ⊎ ((bundle : String) × (k.get_ca_map tr key ≡ ok bundle))
  pub fails : (tr : Trace) (key : ObjectKey) → k.get_job tr key ≡ ok failed_job

-- A TaskRun whose next reconcile starts a Job.
pub record IsToStart (t : TaskRun) : Type 0 where
  pub unfinished : is_done t.status.phase ≡ false
  pub jobless : t.status.job_ref ≡ ""

went_well :
    {A : Type 0} (x : Result (Unit {0})) (n : M A) (tr : Trace)
    → x ≡ ok tt
    → (let y : Trace × Result A = elim x [ ok a ↦ n tr | err e ↦ (tr, err e) ] in y ≡ n tr)
went_well x n tr h = rw h refl

then_lem :
    {A : Type 0} (m : M (Unit {0})) (n : M A) (tr : Trace)
    → (m tr).1 ≡ ok tt
    → (m >> n) tr ≡ n (m tr).0
then_lem m n tr h = went_well (m tr).1 n (m tr).0 h

module _ (k : Cluster) (r : TaskReconciler) where
  -- The TaskRun and the trace after a reconcile.
  abbrev pub reconciled : TaskRun → Trace → TaskRun × Trace
  reconciled t tr = let tr' = (reconcile_job k r t tr).0 in (stored t tr', tr')

  -- The same after the reconcile that starts a Job and the one that finds it failed.
  abbrev pub fail_once : TaskRun → Trace → TaskRun × Trace
  fail_once t tr = let x = reconciled t tr in reconciled x.0 x.1

  -- The same after n Jobs.
  abbrev pub fail_times : ℕ → TaskRun → Trace → TaskRun × Trace
  fail_times zero t tr = (t, tr)
  fail_times (suc n) t tr = let x = fail_once t tr in fail_times n x.0 x.1

  module _ (world : AllJobsFail k) where
    starting :
        (t : TaskRun) (tr : Trace) → IsToStart t → reconcile_job k r t tr ≡ start_job k r t tr
    unfolding reconcile_job
    starting t tr h = rw (h.unfinished, reconcile_job) (rw h.jobless refl)

    written : (c : Call) (tr : Trace) → (emit k c tr).1 ≡ ok tt
    written c tr = rw (world.accepts tr c) refl

    ca_ensured :
        (key : ObjectKey) (tr : Trace) → (ensure_ca_map k r key (k.get_ca_map tr key) tr).1 ≡ ok tt
    unfolding ensure_ca_map
    ca_ensured key tr = elim (world.reads tr key) [
      | inl h ↦ rw h (written (create_ca_map key r.job_builder.hub_ca_bundle) tr)
      | inr (bundle, h) ↦ rw h (elim (Bool-cases (bundle == r.job_builder.hub_ca_bundle)) [
        | inl e ↦ rw e refl
        | inr e ↦ rw e (written (update_ca_map key r.job_builder.hub_ca_bundle) tr)
      ])
    ]

    ensured : (ns : String) (tr : Trace) → (ensure_hub_ca_map k r ns tr).1 ≡ ok tt
    unfolding ensure_hub_ca_map
    ensured ns tr = elim (Bool-cases (r.job_builder.hub_ca_bundle == "")) [
      | inl e ↦ rw (e, ensure_hub_ca_map) refl
      | inr e ↦ rw (e, ensure_hub_ca_map) (ca_ensured _ tr)
    ]

    streamed : (t : TaskRun) (tr : Trace) → (maybe_stream_logs k r t tr).1 ≡ ok tt
    unfolding maybe_stream_logs
    streamed t tr = ground arith

    created : (job : Job) (tr : Trace) → (unless_exists (emit k (create_job job)) tr).1 ≡ ok tt
    created job tr = rw (world.accepts tr (create_job job)) refl

    saved : (t s : TaskRun) (d : Duration) (tr : Trace) → stored t (save k r s d tr).0 ≡ s
    saved t s d tr =
        ap (λ x. stored t x.0)
          (then_lem (emit k (update_task_status s)) (pure d) tr (written (update_task_status s) tr))

    -- A TaskRun that is to start is stored as begun.
    pub starts :
        (t : TaskRun) (tr : Trace)
        → IsToStart t
        → (now : Time) × ((reconciled t tr).0 ≡ begun t ("taskrun-" ++ t.meta.name) now)
    unfolding reconcile_job start_job build
    starts t tr h =
        let job = build r.job_builder r.visit_values t in
        let tr2 = (ensure_hub_ca_map k r job.meta.namespace tr).0 in
        let tr3 = (unless_exists (emit k (create_job job)) tr2).0 in
        let now = k.now tr3 in
        let u = begun t job.meta.name now in
        let next : M Duration = read (λ x. ok (k.now x)) >>= λ now'.
        maybe_stream_logs k r (begun t job.meta.name now')
        >> save k r (begun t job.meta.name now') (pos 0) in
        let begins : M Duration =
          ensure_hub_ca_map k r job.meta.namespace
          >> (unless_exists (emit k (create_job job)) >> next) in
        let run : start_job k r t tr ≡ save k r u (pos 0) (maybe_stream_logs k r u tr3).0 =
          then_lem (check (k.set_owner t.meta job.meta)) begins tr
            (rw (world.owns t.meta job.meta) refl)
          ∙ then_lem (ensure_hub_ca_map k r job.meta.namespace)
              (unless_exists (emit k (create_job job)) >> next) tr (ensured job.meta.namespace tr)
          ∙ then_lem (unless_exists (emit k (create_job job))) next tr2 (created job tr2)
          ∙ then_lem (maybe_stream_logs k r u) (save k r u (pos 0)) tr3 (streamed u tr3) in
        (now, ap (λ x. stored t x.0) (starting t tr h ∙ run) ∙ saved t u (pos 0) _)

    -- The reconcile of a TaskRun whose Job has failed.
    pub finds_failed :
        (t : TaskRun) (tr : Trace)
        → is_done t.status.phase ≡ false
        → (t.status.job_ref == "") ≡ false
        → (reconciled t tr).0 ≡ stored t (follow_job k r t failed_job tr).0
    unfolding reconcile_job
    finds_failed t tr d j =
        let found : reconcile_job k r t tr ≡ follow_job k r t failed_job tr =
          rw (d, reconcile_job) (rw (j, world.fails tr _) refl) in
        ap (λ x. stored t x.0) found

    pub follow_job-retried :
        (t : TaskRun) (tr : Trace)
        → ltb_ℤ t.status.retry_count (max_retries t) ≡ true
        → stored t (follow_job k r t failed_job tr).0 ≡ retried t
    unfolding follow_job
    follow_job-retried t tr h = ground (
      arith,
      world.accepts tr
          (delete_job (record { namespace = t.spec.namespace; name = t.status.job_ref })),
    )

    pub follow_job_final :
        (t : TaskRun) (tr : Trace)
        → ltb_ℤ t.status.retry_count (max_retries t) ≡ false
        → (stored t (follow_job k r t failed_job tr).0).status.phase ≡ TaskRunPhase.failed
    unfolding follow_job finished
    follow_job_final t tr h = ground arith

    pub named : (s : String) → (("taskrun-" ++ s) == "") ≡ false
    named s = rw (append.cons "t" "askrun-" s) (rw (compare.cons-nil "t" ("askrun-" ++ s)) refl)
