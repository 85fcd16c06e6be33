-- ===== src/Tasks/Phases.antt =====
-- The life of a TaskRun: which statuses a reconcile may store after which.
use software_distribution_pl.Prelude.{
  ◌≡◌, ◌⊎◌, refl, Bool, true, false, ◌&&◌, Bool-cases, inl, inr, string_eq, ◌==◌, Option, none,
  some, arith, pos, ltb_ℤ,
}
use software_distribution_pl.Api.Meta.{Time, Duration}
use software_distribution_pl.Api.Rollout.{Rollout, RolloutSpec}
use software_distribution_pl.Api.Pipeline.{TaskRunPhase}
use software_distribution_pl.Api.Task.{TaskRun}
use software_distribution_pl.Kube.{
  Cluster, Call, JobStatus, update_task_status, create_job, create_rollout, M, ◌>>=◌, ◌>>◌, read,
  emit, unless_missing, delete_job, alert, record_phase, ok,
}
use software_distribution_pl.Kube.Writes.{
  Only, pure-Only, unless_exists-Only, unless_missing-Only, >>=-Only, emit-Only, >>-Only, read-Only,
  note-Only, if-Only, with_found-Only,
}
use software_distribution_pl.Jobs.{build}
use software_distribution_pl.Tasks.Trust.{
  check-Only, maybe_stream_logs-Only, ensure_hub_ca_map-Only,
}
use software_distribution_pl.Tasks.{
  TaskReconciler, reconcile_approval, start_job, follow_job, reconcile_job, reconcile_deploy,
  reconcile_task, save,
}
use software_distribution_pl.Tasks.Changes.{
  is_done, is_pending, is_approval, is_release, initial_phase, init_approval, build_rollout,
  retried, finished, backoff_of, begun, mirror_rollout, max_retries,
}

-- A task that a Rollout carries out.
abbrev pub is_deploy : TaskRun → Bool
is_deploy t = is_release t.spec.type && elim t.spec.rollout_spec [ none ↦ false | some _ ↦ true ]

-- The statuses that may follow that of a TaskRun.
pub data Step (t s : TaskRun) : Type 0 where
  waits :
      is_approval t.spec.type ≡ true
      → initial_phase t.status.phase ≡ TaskRunPhase.pending
      → s.status.phase ≡ TaskRunPhase.pending
      → Step t s
  starts :
      is_done t.status.phase ≡ false
      → t.status.job_ref ≡ ""
      → s.status.phase ≡ TaskRunPhase.running
      → Step t s
  retries :
      is_done t.status.phase ≡ false
      → ltb_ℤ t.status.retry_count (max_retries t) ≡ true
      → s.status ≡ (retried t).status
      → Step t s
  stays : is_done t.status.phase ≡ false → s ≡ t → Step t s
  ends :
      is_done t.status.phase ≡ false
      → is_done s.status.phase ≡ true
      → s.status.job_ref ≡ t.status.job_ref
      → Step t s
  follows :
      is_deploy t ≡ true
      → (s.status.phase ≡ TaskRunPhase.running) ⊎ (is_done s.status.phase ≡ true)
      → Step t s

-- A call that stores a status after t, for the same task.
abbrev pub Stores : TaskRun → Call → Type 0
Stores t (update_task_status s) = Step t s × (s.meta ≡ t.meta) × (s.spec ≡ t.spec)
Stores t _ = Unit

retried_same : (t : TaskRun) → ((retried t).meta ≡ t.meta) × ((retried t).spec ≡ t.spec)
unfolding retried
retried_same t = (refl, refl)

pending_of : (p : TaskRunPhase) → is_pending p ≡ true → p ≡ TaskRunPhase.pending
pending_of p h = ground arith

module _ (k : Cluster) (r : TaskReconciler) (t : TaskRun) where
  save-Only :
      (s : TaskRun) (delay : Duration)
      → Stores t (update_task_status s)
      → Only (Stores t) (save k r s delay)
  save-Only s delay h = >>-Only (emit-Only k (update_task_status s) h) (pure-Only delay)

  at_now :
      (f : Time → M Duration)
      → ((now : Time) → Only (Stores t) (f now))
      → Only (Stores t) (read (λ tr. ok (k.now tr)) >>= f)
  at_now f h = >>=-Only (read-Only (λ tr. ok (k.now tr))) h

  start_job-Only :
      is_done t.status.phase ≡ false → t.status.job_ref ≡ "" → Only (Stores t) (start_job k r t)
  unfolding start_job begun
  start_job-Only d j =
      let job = build r.job_builder r.visit_values t in
      let begins = λ (now : Time).
        >>-Only (maybe_stream_logs-Only k r (λ key. tt) (begun t job.meta.name now))
          (save-Only (begun t job.meta.name now) (pos 0) (starts d j refl, refl, refl)) in
      >>-Only (check-Only (k.set_owner t.meta job.meta)) (
        >>-Only (ensure_hub_ca_map-Only k r (λ key b. tt) (λ key b. tt) job.meta.namespace)
          (>>-Only (unless_exists-Only (emit-Only k (create_job job) tt)) (at_now _ begins)))

  finish-Only :
      (phase : TaskRunPhase)
      → is_done t.status.phase ≡ false
      → is_done phase ≡ true
      → Only
          (Stores t)
          (read (λ tr. ok (k.now tr)) >>= λ now. save k r (finished t phase now) (pos 0))
  unfolding finished
  finish-Only phase d e =
      at_now _ (λ now. save-Only (finished t phase now) (pos 0) (ends d e refl, refl, refl))

  retry-Only :
      is_done t.status.phase ≡ false
      → ltb_ℤ t.status.retry_count (max_retries t) ≡ true
      → Only (Stores t) (
          unless_missing
            (emit k (delete_job (record { namespace = t.spec.namespace; name = t.status.job_ref })))
          >> save k r (retried t) (backoff_of t))
  retry-Only d again = >>-Only (unless_missing-Only (emit-Only k (delete_job _) tt)) (
      save-Only (retried t) (backoff_of t)
        (retries d again refl, (retried_same t).0, (retried_same t).1))

  follow_job-Only :
      (job : JobStatus) → is_done t.status.phase ≡ false → Only (Stores t) (follow_job k r t job)
  unfolding follow_job
  follow_job-Only job d =
      if-Only (ltb_ℤ (pos 0) job.succeeded)
        (λ won.
          >>-Only (note-Only (record_phase t.spec.type TaskRunPhase.succeeded) tt)
            (finish-Only TaskRunPhase.succeeded d refl))
        (λ on.
          if-Only (ltb_ℤ (pos 0) job.failed)
            (λ lost.
              if-Only (ltb_ℤ t.status.retry_count (max_retries t)) (λ again. retry-Only d again)
                (λ out. >>-Only (note-Only (record_phase t.spec.type TaskRunPhase.failed) tt) (
                  >>-Only (note-Only (alert "taskrun" t.spec.task_name t.status.message) tt)
                    (finish-Only TaskRunPhase.failed d refl))))
            (λ pending. save-Only t (pos 0) (stays d refl, refl, refl)))

  reconcile_job-Only : Only (Stores t) (reconcile_job k r t)
  unfolding reconcile_job
  reconcile_job-Only =
      if-Only (is_done t.status.phase) (λ _. pure-Only (pos 0))
        (λ d.
          if-Only (t.status.job_ref == "") (λ j. start_job-Only d ((string_eq.is_same_iff _ _).0 j))
            (λ j. with_found-Only (λ tr. k.get_job tr _) (pos 0) (λ job. follow_job-Only job d)))

  reconcile_approval-Only :
      is_approval t.spec.type ≡ true → Only (Stores t) (reconcile_approval k r t)
  unfolding reconcile_approval init_approval
  reconcile_approval-Only a = record {
    adds = λ tr.
        (if-Only (is_pending (initial_phase t.status.phase))
            (λ p.
              save-Only (init_approval t (k.now tr)) _
                (waits a (pending_of _ p) (pending_of _ p), refl, refl))
            (λ _. pure-Only _)).adds
          tr;
  }

  mirror_rollout-Stores :
      (ro : Rollout) (now : Time)
      → is_deploy t ≡ true
      → Stores t (update_task_status (mirror_rollout t ro now))
  unfolding mirror_rollout finished
  mirror_rollout-Stores ro now d =
      let same : ((mirror_rollout t ro now).meta ≡ t.meta)
          × ((mirror_rollout t ro now).spec ≡ t.spec) =
        (ground arith, ground arith) in
      elim (Bool-cases (is_done (mirror_rollout t ro now).status.phase)) [
        | inl e ↦ (follows d (inr e), same.0, same.1)
        | inr e ↦ (follows d (inl (ground arith)), same.0, same.1)
      ]

  reconcile_deploy-Only :
      (spec : RolloutSpec) → is_deploy t ≡ true → Only (Stores t) (reconcile_deploy k r t spec)
  unfolding reconcile_deploy
  reconcile_deploy-Only spec d =
      if-Only (t.status.rollout_ref == "")
        (λ _. >>-Only (check-Only (k.set_owner t.meta (build_rollout t spec).meta)) (
          >>-Only (unless_exists-Only (emit-Only k (create_rollout (build_rollout t spec)) tt)) (
            >>=-Only (read-Only (λ tr. ok (k.now tr))) (λ now.
              save-Only
                (record t {
                  status = record (t.status) {
                    phase = TaskRunPhase.running;
                    rollout_ref = (build_rollout t spec).meta.name;
                    start_time = some now;
                  };
                })
                (pos 0) (follows d (inl refl), refl, refl)))))
        (λ _.
          with_found-Only
            (λ tr.
              k.get_rollout tr
                (record { namespace = t.spec.namespace; name = t.status.rollout_ref }))
            (pos 0)
            (λ ro. >>=-Only (read-Only (λ tr. ok (k.now tr))) (λ now.
              save-Only (mirror_rollout t ro now) (pos 0) (mirror_rollout-Stores ro now d))))

  release-Only :
      (o : Option RolloutSpec)
      → t.spec.rollout_spec ≡ o
      → is_release t.spec.type ≡ true
      → Only
          (Stores t)
          (elim o [ some spec ↦ reconcile_deploy k r t spec | none ↦ reconcile_job k r t ])
  release-Only none e rel = reconcile_job-Only
  release-Only (some spec) e rel = reconcile_deploy-Only spec (rw rel (rw e refl))

  -- Every status that a reconcile of a TaskRun stores is for the same task and follows the one
  -- before: an approval waits as Pending; a Job starts, is retried, stays or ends, each only from
  -- a phase that is not final; only a task that a Rollout carries out may leave a final phase.
  pub reconcile_task-Stores : Only (Stores t) (reconcile_task k r t)
  unfolding reconcile_task
  reconcile_task-Stores =
      if-Only (is_approval t.spec.type) (λ a. reconcile_approval-Only a)
        (λ _.
          if-Only (is_release t.spec.type) (λ rel. release-Only t.spec.rollout_spec refl rel)
            (λ _. reconcile_job-Only))

-- A final phase is kept by every task that no Rollout carries out.
pub final_stays : (t s : TaskRun) → is_deploy t ≡ false → is_done t.status.phase ≡ true → ¬ Step t s
final_stays t s d f (waits a w p) = ground arith
final_stays t s d f (starts n j p) = cc
final_stays t s d f (retries n b e) = cc
final_stays t s d f (stays n e) = cc
final_stays t s d f (ends n e j) = cc
final_stays t s d f (follows y e) = cc
