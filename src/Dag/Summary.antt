-- ===== src/Dag/Summary.antt =====
-- What a run reports of its tasks, also when it is cancelled.
use mathlib.Core.Logic.{◌≢◌}
use software_distribution_pl.Prelude.{
  ℕ, zero, suc, String, string_eq, eq_iff, ◌≡◌, refl, true, false, Bool-cases, none, some,
  Option-cases, inl, inr, List, [], ◌∷◌, All, get_elem?, map, Map, lookup, arith,
}
use software_distribution_pl.Api.Meta.{Time}
use software_distribution_pl.Api.Rollout.{Rollout}
use software_distribution_pl.Api.Pipeline.{PipelineTaskSpec, TaskRunPhase, TaskRunStatusSummary}
use software_distribution_pl.Api.Task.{TaskRun}
use software_distribution_pl.Dag.{
  has_succeeded, all_tasks_succeeded, summarize_task, summarize_tasks, is_terminal_task_phase,
  cancel_summary, cancelled_task_summary,
}

-- summarizeTasks has one entry for each task, with its name, in the order of the tasks.
summarize_tasks-names :
    (tasks : List PipelineTaskSpec) (existing : Map TaskRun) (rollouts : Map Rollout)
    → map (λ (s : TaskRunStatusSummary). s.name) (summarize_tasks tasks existing rollouts)
      ≡ map (λ (t : PipelineTaskSpec). t.name) tasks
unfolding summarize_tasks
summarize_tasks-names [] existing rollouts = refl
summarize_tasks-names (t ∷ tasks) existing rollouts =
    ground (arith, summarize_tasks-names tasks existing rollouts)

-- What a cancelled run reports of task t.
pub data Outcome (existing : Map TaskRun) (now : Time) (msg : String) (t : PipelineTaskSpec)
    (s : TaskRunStatusSummary) : Type 0 where
  never_started :
      lookup t.name existing ≡ none
      → s.phase ≡ TaskRunPhase.skipped
      → s.message ≡ msg
      → Outcome existing now msg t s
  already_final :
      (tr : TaskRun)
      → lookup t.name existing ≡ some tr
      → is_terminal_task_phase tr.status.phase ≡ true
      → (s.phase ≡ tr.status.phase)
        × (s.completion_time ≡ tr.status.completion_time)
        × (s.message ≡ tr.status.message)
      → Outcome existing now msg t s
  stopped :
      (tr : TaskRun)
      → lookup t.name existing ≡ some tr
      → is_terminal_task_phase tr.status.phase ≡ false
      → (s.phase ≡ TaskRunPhase.failed) × (s.completion_time ≡ some now) × (s.message ≡ msg)
      → Outcome existing now msg t s

-- Every TaskRun has a name, as Kubernetes requires of a stored object.
abbrev pub AllNamed : Map TaskRun → Type 0
AllNamed existing = (k : String) (tr : TaskRun) → lookup k existing ≡ some tr → tr.meta.name ≢ ""

module _ (existing : Map TaskRun) (now : Time) (msg : String) (named : AllNamed existing) where
  cancel_summary-Outcome :
      (t : PipelineTaskSpec)
      → Outcome existing now msg t (cancel_summary now msg (summarize_task existing [] t))
  unfolding cancel_summary summarize_task
  cancel_summary-Outcome t = elim (Option-cases (lookup t.name existing)) [
    | inl e ↦ rw (e, summarize_task) (never_started e refl refl)
    | inr (run, e) ↦ elim (Bool-cases (is_terminal_task_phase run.status.phase)) [
      | inl f ↦ rw (e, summarize_task) (already_final run e f (ground arith))
      | inr f ↦
          rw (e, summarize_task)
            (stopped run e f (ground (arith, eq_iff run.meta.name "", named t.name run e)))
    ]
  ]

  cancel_summary-name :
      (t : PipelineTaskSpec) → (cancel_summary now msg (summarize_task existing [] t)).name ≡ t.name
  unfolding cancel_summary summarize_task
  cancel_summary-name t = ground arith

  -- If every TaskRun has a name, the report of a cancelled run has at the place of each task an
  -- entry with its name: Skipped if it was never started, with its own phase, time and message if
  -- it was final, and Failed with the time and the reason of the cancel otherwise.
  pub cancelled_task_summary-Outcome :
      (tasks : List PipelineTaskSpec) (i : ℕ) {t : PipelineTaskSpec}
      → get_elem? tasks i ≡ some t
      → (s : TaskRunStatusSummary) × (get_elem? (cancelled_task_summary tasks existing now msg) i
          ≡ some s)
        × (s.name ≡ t.name)
        × Outcome existing now msg t s
  unfolding cancelled_task_summary
  cancelled_task_summary-Outcome [] i e = cc
  cancelled_task_summary-Outcome (t ∷ tasks) zero {t = t'} e =
      let p : t ≡ t' = cc in
      rw (← p) (
        cancel_summary now msg (summarize_task existing [] t),
        refl,
        cancel_summary-name t,
        cancel_summary-Outcome t,
      )
  cancelled_task_summary-Outcome (t ∷ tasks) (suc i) e = cancelled_task_summary-Outcome tasks i e

-- A finished DAG is reported with every task Succeeded.
pub summarize_tasks-succeeded :
    (tasks : List PipelineTaskSpec) (existing : Map TaskRun) (rollouts : Map Rollout)
    → all_tasks_succeeded tasks existing ≡ true
    → All
        (λ (s : TaskRunStatusSummary). s.phase ≡ TaskRunPhase.succeeded)
        (summarize_tasks tasks existing rollouts)
unfolding all_tasks_succeeded summarize_tasks has_succeeded
summarize_tasks-succeeded [] existing rollouts h = tt
summarize_tasks-succeeded (t ∷ tasks) existing rollouts h =
    elim (Option-cases (lookup t.name existing)) [
      | inl e ↦ absurd (ground arith)
      | inr (run, e) ↦
          (ground arith, summarize_tasks-succeeded tasks existing rollouts (ground arith))
    ]

-- Every entry of the report of a cancelled run is in a terminal phase.
pub cancelled_task_summary_terminal :
    (tasks : List PipelineTaskSpec) (existing : Map TaskRun) (now : Time) (msg : String)
    → All
        (λ (s : TaskRunStatusSummary). is_terminal_task_phase s.phase ≡ true)
        (cancelled_task_summary tasks existing now msg)
unfolding cancelled_task_summary
cancelled_task_summary_terminal [] existing now msg = tt
cancelled_task_summary_terminal (t ∷ tasks) existing now msg =
    (ground arith, cancelled_task_summary_terminal tasks existing now msg)
