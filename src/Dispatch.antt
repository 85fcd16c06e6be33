-- ===== src/Dispatch.antt =====
-- internal/dispatch: the handlers of the hub's frames. A handler is given the decoded payload;
-- decoding and log lines are not modelled, the digest of a snapshot (JSON and SHA-256) is a parameter.
pub mod Approvals
pub mod Requests
pub mod Rerun
pub mod Queue
pub mod Snapshot
pub mod Orders
pub mod Applies
pub mod Downstream
use Prim.Native.String.{◌++◌}
use mathlib.Core.List.{◌++◌ as append}
use software_distribution_pl.Prelude.{
  ℤ, pos, leb_ℤ, int32, String, string_eq, ◌==◌, Bool, true, false, ◌||◌, Option, none, some, List,
  [], ◌∷◌, length, contains, insert, if◌then◌else◌,
}
use software_distribution_pl.Api.Meta.{Time, ObjectKey}
use software_distribution_pl.Api.Rollout.{Rollout}
use software_distribution_pl.Api.Pipeline.{
  PipelineRun, PipelineRunPhase, TaskRunPhase, ApprovalStatus,
}
use software_distribution_pl.Api.Task.{TaskRun}
use software_distribution_pl.Api.Payloads.{
  ApproveTaskPayload, CancelPipelineRunPayload, RolloutControlPayload, ApplyPipelineRunPayload,
  ann_cancel_requested, ann_cancel_operator, action_pause, action_promote, action_rollback,
}
use software_distribution_pl.Kube.{
  Cluster, Trace, ApiError, not_found, api, Error, invalid, Result, ok, err, M, ◌>>=◌, ◌>>◌, pure,
  fail, read, emit, unless_exists, unless_missing, with_found, update_task_status, patch_run,
  patch_rollout, create_namespace, create_run,
}
use software_distribution_pl.Dag.{is_terminal_phase}
use software_distribution_pl.Dispatch.Snapshot.{Proj, snapshot_spec}
use software_distribution_pl.Tasks.Changes.{required_count}
use software_distribution_pl.Rollouts.{ann_rollout_action, ann_rollout_operator}
use software_distribution_pl.Rollouts.Changes.{annotate}

-- The approval record, made if the TaskRun controller has not made it yet.
unfoldable pub approval_of : TaskRun → String → Time → ApprovalStatus
approval_of t task_name now = elim t.status.approval [
  | some a ↦ a
  | none ↦ record {
    task_name = task_name;
    requested_at = now;
    required_count = required_count t;
    approved_by = [];
    rejected_by = "";
  }
]

unfoldable pub rejected : TaskRun → ApprovalStatus → String → TaskRun
rejected t a approver = record t {
  status = record (t.status) {
    approval = some (record a { rejected_by = approver });
    phase = TaskRunPhase.failed;
    message = "rejected by " ++ approver;
  };
}

-- One more approval, which ends the task once there are enough of them.
unfoldable pub approved : TaskRun → ApprovalStatus → String → TaskRun
approved t a approver =
    let by = append a.approved_by (approver ∷ []) in
    let t' = record t {
      status = record (t.status) { approval = some (record a { approved_by = by }) };
    } in
    if leb_ℤ a.required_count (int32 (pos (length by)))
    then record t' {
      status = record (t'.status) { phase = TaskRunPhase.succeeded; message = "approved" };
    }
    else t'

-- The TaskRun that is stored, or none where the approver has approved before.
unfoldable pub decide_approval : TaskRun → ApproveTaskPayload → Time → Option TaskRun
unfolding approval_of rejected approved
decide_approval t p now =
    let a = approval_of t p.task_name now in
    if p.rejected
    then some (rejected t a p.approver)
    else if contains a.approved_by p.approver
    then none
    else some (approved t a p.approver)

-- The patched run of a cancel, and the patched Rollout of a command.
unfoldable pub stamp_cancel : PipelineRun → String → PipelineRun
stamp_cancel pr operator = record pr {
  meta = record (pr.meta) {
    annotations =
        insert ann_cancel_operator operator
          (insert ann_cancel_requested "true" pr.meta.annotations);
  };
}

unfoldable pub stamp_action : Rollout → String → String → Rollout
stamp_action ro action operator =
    let asked = annotate (insert ann_rollout_action action) ro in
    if operator == "" then asked else annotate (insert ann_rollout_operator operator) asked

module _ (k : Cluster) where
  abbrev pub store_task : TaskRun → M (Unit {0})
  store_task t = unless_missing (emit k (update_task_status t))

  -- A payload without a run or a task, in the texts of the handlers.
  abbrev pub lacks : String → String → Bool
  lacks run_name task_name = run_name == "" || task_name == ""

  -- The first TaskRun with the two labels, in any namespace.
  unfoldable pub find_task : String → String → M (Option TaskRun)
  find_task run_name task_name = do
    items ← read (λ tr.
        k.list_task_runs tr none
          (("sdp.io/pipeline-run", run_name) ∷ ("sdp.io/task", task_name) ∷ []))
    pure (elim items [ [] ↦ none | t ∷ rest ↦ some t ])

  abbrev pub store_decision : Option TaskRun → M (Unit {0})
  store_decision none = pure tt
  store_decision (some t) = store_task t

  unfoldable pub apply_approval : ApproveTaskPayload → Option TaskRun → M (Unit {0})
  apply_approval p none = pure tt
  apply_approval p (some t) = λ tr. store_decision (decide_approval t p (k.now tr)) tr

  unfoldable pub handle_approve : ApproveTaskPayload → M (Unit {0})
  handle_approve p =
      if lacks p.pipeline_run_name p.task_name
      then fail (invalid "dispatch: approve payload needs pipelineRunName and taskName")
      else (find_task p.pipeline_run_name p.task_name >>= apply_approval p)

  unfoldable pub request_cancel : CancelPipelineRunPayload → PipelineRun → M (Unit {0})
  request_cancel p pr =
      if is_terminal_phase pr.status.phase
      then pure tt
      else emit k (patch_run pr (stamp_cancel pr p.operator))

  unfoldable pub handle_cancel : CancelPipelineRunPayload → M (Unit {0})
  handle_cancel p =
      if lacks p.pipeline_run_name p.namespace
      then fail (invalid "dispatch: cancel payload needs pipelineRunName and namespace")
      else with_found
          (λ tr. k.get_run tr (record { namespace = p.namespace; name = p.pipeline_run_name })) tt
          (request_cancel p)

  abbrev pub is_action : String → Bool
  is_action a = a == action_pause || a == action_promote || a == action_rollback

  -- A Rollout that is gone is an error here.
  unfoldable pub request_action : RolloutControlPayload → Option TaskRun → M (Unit {0})
  request_action p none = pure tt
  request_action p (some t) =
      if t.status.rollout_ref == ""
      then pure tt
      else (read (λ tr.
            k.get_rollout tr (record { namespace = t.spec.namespace; name = t.status.rollout_ref }))
          >>= λ ro. emit k (patch_rollout ro (stamp_action ro p.action p.operator)))

  -- The message names the action without the quotes of %q.
  unfoldable pub handle_rollout_control : RolloutControlPayload → M (Unit {0})
  handle_rollout_control p =
      if lacks p.pipeline_run_name p.task_name
      then fail (invalid "dispatch: rollout control payload needs pipelineRunName and taskName")
      else if is_action p.action
      then (find_task p.pipeline_run_name p.task_name >>= request_action p)
      else fail (invalid ("dispatch: unknown rollout action " ++ p.action))

  unfoldable pub create_if_gone : Result (Unit {0}) → M (Unit {0}) → M (Unit {0})
  create_if_gone (ok found) create = pure tt
  create_if_gone (err (api not_found)) create = create
  create_if_gone (err e) create = fail e

  unfoldable pub ensure_namespace : String → M (Unit {0})
  ensure_namespace name tr =
      create_if_gone (k.get_namespace tr name) (unless_exists (emit k (create_namespace name))) tr

  -- The run that a payload asks for.
  unfoldable pub requested_run :
      (List Proj → String) → String → ApplyPipelineRunPayload → PipelineRun
  requested_run digest target p = record {
    meta = record {
      name = p.name;
      namespace = if p.namespace == "" then "sdp-run" else p.namespace;
      labels = ("sdp.io/target", target) ∷ [];
      annotations =
          let base =
            ("sdp.io/target", target)
            ∷ ("sdp.io/spec-snapshot", snapshot_spec digest p.spec.tasks)
            ∷ [] in
          if p.publish_version == ""
          then base
          else insert "sdp.io/publish-version" p.publish_version base;
    };
    spec = p.spec;
    status = record {
      phase = PipelineRunPhase.unset;
      start_time = none;
      completion_time = none;
      tasks = [];
      current_approval = none;
      message = "";
    };
  }

  abbrev pub drop_run : Result PipelineRun → Result (Unit {0})
  drop_run (ok pr) = ok tt
  drop_run (err e) = err e

  unfoldable pub handle_apply :
      (List Proj → String) → String → ApplyPipelineRunPayload → M (Unit {0})
  handle_apply digest target p =
      let pr = requested_run digest target p in
      let key : ObjectKey = record { namespace = pr.meta.namespace; name = pr.meta.name } in
      if p.name == ""
      then fail (invalid "dispatch: ApplyPipelineRunPayload.Name is required")
      else (ensure_namespace pr.meta.namespace >> λ tr.
          create_if_gone (drop_run (k.get_run tr key)) (unless_exists (emit k (create_run pr))) tr)
