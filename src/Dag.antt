-- ===== src/Dag.antt =====
-- internal/controller/pipelinerun_controller.go and pipelinerun_cancel.go: the pure half of the
-- PipelineRun reconciler, which schedules and summarises the DAG of a run.
pub mod Runnable
pub mod Serial
pub mod Progress
pub mod Summary
use software_distribution_pl.Prelude.{
  ℕ, suc, ℤ, pos, negsuc, leb_ℤ, String, string_eq, ◌==◌, Bool, true, false, not, ◌&&◌, ◌||◌,
  Option, none, some, List, [], ◌∷◌, any, all, Map, lookup, insert, values, has_key, if◌then◌else◌,
}
use software_distribution_pl.Api.Meta.{Time}
use software_distribution_pl.Api.Rollout.{Rollout}
use software_distribution_pl.Api.Pipeline.{
  PipelineTaskType, approval, ExecutionMode, serial, PipelineTaskSpec, TaskRunPhase,
  TaskRunStatusSummary, RolloutStatusSummary, ApprovalStatus, PipelineRunPhase,
}
use software_distribution_pl.Api.Task.{TaskRun}

abbrev pub is_succeeded : TaskRunPhase → Bool
is_succeeded TaskRunPhase.succeeded = true
is_succeeded _ = false

abbrev pub is_failed : TaskRunPhase → Bool
is_failed TaskRunPhase.failed = true
is_failed _ = false

abbrev pub is_pending : TaskRunPhase → Bool
is_pending TaskRunPhase.pending = true
is_pending _ = false

abbrev pub is_serial : ExecutionMode → Bool
is_serial serial = true
is_serial _ = false

abbrev pub is_approval : PipelineTaskType → Bool
is_approval approval = true
is_approval _ = false

-- `existing`: the TaskRuns by their task's name. A later item of the list replaces an earlier one.
unfoldable pub index_by_task : List TaskRun → Map TaskRun → Map TaskRun
index_by_task [] existing = existing
index_by_task (tr ∷ items) existing = index_by_task items (insert tr.spec.task_name tr existing)

-- `tr, ok := existing[name]; ok && tr.Status.Phase == Succeeded`
unfoldable pub has_succeeded : Map TaskRun → String → Bool
has_succeeded existing name = elim (lookup name existing) [
  | none ↦ false
  | some tr ↦ is_succeeded tr.status.phase
]

-- -1 where no task has the name.
unfoldable pub order_index_from : ℕ → List PipelineTaskSpec → String → ℤ
order_index_from i [] name = negsuc 0
order_index_from i (t ∷ tasks) name =
    let rest = order_index_from (suc i) tasks name in if t.name == name then pos i else rest

unfoldable pub order_index : List PipelineTaskSpec → String → ℤ
unfolding order_index_from
order_index tasks name = order_index_from 0 tasks name

-- The loop body of serialBlocked: `other` is an earlier serial sibling of t that has not succeeded.
unfoldable pub blocks :
    PipelineTaskSpec → List PipelineTaskSpec → Map TaskRun → PipelineTaskSpec → Bool
unfolding order_index has_succeeded
blocks t tasks existing other =
    if not (other.stage == t.stage) || not (is_serial other.execution_mode)
    then false
    else if leb_ℤ (order_index tasks t.name) (order_index tasks other.name)
    then false
    else not (has_succeeded existing other.name)

unfoldable pub serial_blocked : PipelineTaskSpec → List PipelineTaskSpec → Map TaskRun → Bool
unfolding blocks
serial_blocked t tasks existing =
    if t.stage == "" || not (is_serial t.execution_mode)
    then false
    else any (blocks t tasks existing) tasks

unfoldable pub dependencies_satisfied : List String → Map TaskRun → Bool
unfolding has_succeeded
dependencies_satisfied depends_on existing = all (has_succeeded existing) depends_on

unfoldable pub is_runnable : List PipelineTaskSpec → Map TaskRun → PipelineTaskSpec → Bool
unfolding dependencies_satisfied serial_blocked has_key
is_runnable tasks existing t =
    if has_key t.name existing
    then false
    else if not (dependencies_satisfied t.depends_on existing)
    then false
    else if serial_blocked t tasks existing
    then false
    else true

unfoldable pub collect_runnable :
    List PipelineTaskSpec → Map TaskRun → List PipelineTaskSpec → List PipelineTaskSpec
unfolding is_runnable
collect_runnable tasks existing [] = []
collect_runnable tasks existing (t ∷ rest) =
    let later = collect_runnable tasks existing rest in
    if is_runnable tasks existing t then t ∷ later else later

unfoldable pub find_runnable_tasks : List PipelineTaskSpec → Map TaskRun → List PipelineTaskSpec
unfolding collect_runnable
find_runnable_tasks tasks existing = collect_runnable tasks existing tasks

unfoldable pub all_tasks_succeeded : List PipelineTaskSpec → Map TaskRun → Bool
unfolding has_succeeded
all_tasks_succeeded tasks existing = all (λ t. has_succeeded existing t.name) tasks

-- The loop over a Go map: only whether some value is failed is asked, so its order does not matter.
unfoldable pub has_failed_task : Map TaskRun → Bool
unfolding values
has_failed_task existing = any (λ tr. is_failed tr.status.phase) (values existing)

-- The approval that one task waits for.
unfoldable pub pending_approval_of : Map TaskRun → PipelineTaskSpec → Option ApprovalStatus
pending_approval_of existing t =
    if not (is_approval t.type) then none else elim (lookup t.name existing) [
      | none ↦ none
      | some tr ↦ if not (is_pending tr.status.phase) then none else tr.status.approval
    ]

unfoldable pub find_pending_approval : List PipelineTaskSpec → Map TaskRun → Option ApprovalStatus
unfolding pending_approval_of
find_pending_approval [] existing = none
find_pending_approval (t ∷ tasks) existing =
    let rest = find_pending_approval tasks existing in
    elim (pending_approval_of existing t) [ none ↦ rest | some a ↦ some a ]

unfoldable pub rollouts_by_name : List Rollout → Map Rollout → Map Rollout
rollouts_by_name [] out = out
rollouts_by_name (ro ∷ items) out =
    rollouts_by_name items
      (insert (elim (lookup "sdp.io/task-run" ro.meta.labels) [ none ↦ "" | some l ↦ l ]) ro out)

unfoldable pub rollout_summary_for : TaskRun → Map Rollout → Option RolloutStatusSummary
rollout_summary_for tr rollouts =
    if tr.status.rollout_ref == "" then none else elim (lookup tr.meta.name rollouts) [
      | none ↦ none
      | some ro ↦ some (record {
        phase = ro.status.phase;
        current_step_index = ro.status.current_step_index;
        current_weight = ro.status.current_weight;
        workload_ref = ro.spec.workload_ref;
        message = ro.status.message;
      })
    ]

-- The summary of one task.
unfoldable pub summarize_task : Map TaskRun → Map Rollout → PipelineTaskSpec → TaskRunStatusSummary
unfolding rollout_summary_for
summarize_task existing rollouts t = elim (lookup t.name existing) [
  | none ↦ record {
    name = t.name;
    task_run_ref = "";
    phase = TaskRunPhase.pending;
    retry_count = pos 0;
    start_time = none;
    completion_time = none;
    message = "";
    rollout = none;
  }
  | some tr ↦ record {
    name = t.name;
    task_run_ref = tr.meta.name;
    phase = tr.status.phase;
    retry_count = tr.status.retry_count;
    start_time = tr.status.start_time;
    completion_time = tr.status.completion_time;
    message = tr.status.message;
    rollout = rollout_summary_for tr rollouts;
  }
]

unfoldable pub summarize_tasks :
    List PipelineTaskSpec → Map TaskRun → Map Rollout → List TaskRunStatusSummary
unfolding summarize_task
summarize_tasks [] existing rollouts = []
summarize_tasks (t ∷ tasks) existing rollouts =
    summarize_task existing rollouts t ∷ summarize_tasks tasks existing rollouts

-- pipelinerun_cancel.go.
unfoldable pub is_terminal_task_phase : TaskRunPhase → Bool
is_terminal_task_phase TaskRunPhase.succeeded = true
is_terminal_task_phase TaskRunPhase.failed = true
is_terminal_task_phase TaskRunPhase.skipped = true
is_terminal_task_phase _ = false

-- The loop body of cancelledTaskSummary.
unfoldable pub cancel_summary : Time → String → TaskRunStatusSummary → TaskRunStatusSummary
unfolding is_terminal_task_phase
cancel_summary now msg s =
    if is_terminal_task_phase s.phase
    then s
    else if s.task_run_ref == ""
    then record s { message = msg; phase = TaskRunPhase.skipped }
    else record s { message = msg; phase = TaskRunPhase.failed; completion_time = some now }

unfoldable pub cancel_summaries :
    Time → String → List TaskRunStatusSummary → List TaskRunStatusSummary
unfolding cancel_summary
cancel_summaries now msg [] = []
cancel_summaries now msg (s ∷ summaries) =
    cancel_summary now msg s ∷ cancel_summaries now msg summaries

unfoldable pub cancelled_task_summary :
    List PipelineTaskSpec → Map TaskRun → Time → String → List TaskRunStatusSummary
unfolding summarize_tasks cancel_summaries
cancelled_task_summary tasks existing now msg =
    cancel_summaries now msg (summarize_tasks tasks existing [])

unfoldable pub is_terminal_phase : PipelineRunPhase → Bool
is_terminal_phase PipelineRunPhase.succeeded = true
is_terminal_phase PipelineRunPhase.failed = true
is_terminal_phase PipelineRunPhase.cancelled = true
is_terminal_phase _ = false
