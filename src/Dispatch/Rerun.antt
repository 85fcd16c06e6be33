-- ===== src/Dispatch/Rerun.antt =====
-- internal/dispatch/rerun_handler.go: the rerun of one task.
use Prim.Native.String.{◌++◌ as concat}
use software_distribution_pl.Api.Meta.{ObjectKey}
use software_distribution_pl.Api.Pipeline.{PipelineRun, PipelineRunPhase, TaskRunPhase}
use software_distribution_pl.Api.Task.{TaskRun}
use software_distribution_pl.Api.Payloads.{RerunTaskPayload}
use software_distribution_pl.Kube.{
  Cluster, invalid, M, ◌>>=◌, ◌>>◌, pure, fail, read, emit, unless_missing, each, delete_job,
  delete_rollout, delete_task_run, update_run_status,
}
use software_distribution_pl.Dispatch.{find_task, store_task, lacks}
use mathlib.Core.List.{◌++◌}
use software_distribution_pl.Prelude.{
  pos, ℕ, zero, suc, ◌+◌, String, string_eq, ◌==◌, Bool, true, false, Option, none, some, List, [],
  ◌∷◌, length, contains, Map, lookup, insert, if◌then◌else◌,
}
use software_distribution_pl.Api.Pipeline.{PipelineTaskSpec}

-- A missing key of the map reads as the empty list.
abbrev pub dependents_at : String → Map (List String) → List String
dependents_at dep m = elim (lookup dep m) [ none ↦ [] | some names ↦ names ]

-- `dependents[dep] = append(dependents[dep], name)` for each upstream task of one task.
unfoldable pub add_edges : (name : String) → List String → Map (List String) → Map (List String)
add_edges name [] m = m
add_edges name (dep ∷ deps) m =
    add_edges name deps (insert dep (dependents_at dep m ++ (name ∷ [])) m)

unfoldable pub add_tasks : List PipelineTaskSpec → Map (List String) → Map (List String)
unfolding add_edges
add_tasks [] m = m
add_tasks (t ∷ tasks) m = add_tasks tasks (add_edges t.name t.depends_on m)

-- The inner loop. The names that were seen are those of `out`.
unfoldable pub push : List String → List String → List String → List String × List String
push [] out queue = (out, queue)
push (d ∷ ds) out queue =
    let old = push ds out queue in
    let new = push ds (out ++ (d ∷ [])) (queue ++ (d ∷ [])) in if contains out d then old else new

-- The outer loop, or none where the fuel ends before the queue.
unfoldable pub walk_queue : ℕ → Map (List String) → (out queue : List String) → Option (List String)
unfolding push
walk_queue fuel dependents out [] = some out
walk_queue zero dependents out (cur ∷ queue) = none
walk_queue (suc fuel) dependents out (cur ∷ queue) =
    let next = push (dependents_at cur dependents) out queue in
    walk_queue fuel dependents next.0 next.1

unfoldable pub downstream_tasks : List PipelineTaskSpec → String → Option (List String)
unfolding add_tasks walk_queue
downstream_tasks tasks task_name =
    walk_queue (length tasks + 1) (add_tasks tasks []) [] (task_name ∷ [])

-- The task is reset to be built from scratch.
unfoldable pub reset : TaskRun → TaskRun
reset t = record t {
  status = record (t.status) {
    phase = TaskRunPhase.pending;
    job_ref = "";
    rollout_ref = "";
    pod_name = "";
    retry_count = pos 0;
    exit_code = none;
    start_time = none;
    completion_time = none;
    message = "rerun requested";
    approval = none;
  };
}

unfoldable pub revived : PipelineRun → PipelineRun
revived pr = record pr {
  status = record (pr.status) {
    phase = PipelineRunPhase.running;
    completion_time = none;
    message = "rerun requested";
  };
}

abbrev pub is_failed_run : PipelineRunPhase → Bool
is_failed_run PipelineRunPhase.failed = true
is_failed_run _ = false

module _ (k : Cluster) where
  -- A delete of an object that is gone is no error.
  unfoldable pub delete_named :
      (ObjectKey → M (Unit {0})) → (namespace name : String) → M (Unit {0})
  delete_named delete namespace name =
      if name == ""
      then pure tt
      else unless_missing (delete (record { namespace = namespace; name = name }))

  unfoldable pub delete_downstream : String → String → List String → M (Unit {0})
  delete_downstream namespace run_name names =
      each
        (λ name. unless_missing (
          emit k (
            delete_task_run
              (record { namespace = namespace; name = concat run_name (concat "-" name) }))))
        names

  -- Only a Failed run is revived.
  unfoldable pub revive : PipelineRun → M (Unit {0})
  revive pr =
      if is_failed_run pr.status.phase
      then unless_missing (emit k (update_run_status (revived pr)))
      else pure tt

  abbrev pub names_of : Option (List String) → List String
  names_of none = []
  names_of (some names) = names

  unfoldable pub rerun_task : Option TaskRun → M (Unit {0})
  rerun_task none = pure tt
  rerun_task (some t) = do
    let ns = t.spec.namespace
    pr ← read (λ tr. k.get_run tr (record { namespace = ns; name = t.spec.pipeline_run_ref }))
    delete_named (λ key. emit k (delete_job key)) ns t.status.job_ref
    delete_named (λ key. emit k (delete_rollout key)) ns t.status.rollout_ref
    store_task k (reset t)
    delete_downstream ns pr.meta.name (names_of (downstream_tasks pr.spec.tasks t.spec.task_name))
    revive pr

  unfoldable pub handle_rerun : RerunTaskPayload → M (Unit {0})
  handle_rerun p =
      if lacks k p.pipeline_run_name p.task_name
      then fail (invalid "dispatch: rerun payload needs pipelineRunName and taskName")
      else (find_task k p.pipeline_run_name p.task_name >>= rerun_task)
