-- ===== src/Tests/Decisions.antt =====
-- The theorems on the handlers of the hub's frames at sample payloads.
use mathlib.Core.List.{◌++◌ as append}
use Prim.Native.String.{◌++◌}
use software_distribution_pl.Prelude.{
  List, lookup, insert, Elem, pos, ◌≤ℤ◌, ◌≡◌, ◌↔◌, refl, int32, String, Bool, false, some, [], ◌∷◌,
  length, eq_iff, arith,
}
use software_distribution_pl.Api.Pipeline.{TaskRunPhase, ApprovalStatus}
use software_distribution_pl.Api.Task.{TaskRun}
use software_distribution_pl.Api.Payloads.{ApproveTaskPayload}
use software_distribution_pl.Kube.Counts.{count}
use software_distribution_pl.Pipelines.{reconcile_run}
use software_distribution_pl.Pipelines.Changes.{cancel_message, build_task_run}
use software_distribution_pl.Pipelines.Cancel.{is_create}
use software_distribution_pl.Dispatch.{approval_of, approved, decide_approval, stamp_cancel}
use software_distribution_pl.Dispatch.Approvals.{Distinct, decide_approval_quorum}
use software_distribution_pl.Dispatch.Requests.{stamp_cancel-reconcile_run}
use software_distribution_pl.Dispatch.Rerun.{downstream_tasks}
use software_distribution_pl.Dispatch.Downstream.{IsDownstream, downstream_tasks_iff}
use software_distribution_pl.Tests.{tasks, run, compile, calm, wired}

-- Ann has approved; two approvals are required.
abbrev waiting : ApprovalStatus
waiting = record {
  task_name = "gate";
  requested_at = 5;
  required_count = pos 2;
  approved_by = "ann" ∷ [];
  rejected_by = "";
}

unfoldable gate : TaskRun
unfolding build_task_run
gate =
    let t = build_task_run run compile in
    record t {
      status = record (t.status) { phase = TaskRunPhase.pending; approval = some waiting };
    }

abbrev vote : String → Bool → ApproveTaskPayload
vote approver reject = record {
  pipeline_run_name = "run-1";
  task_name = "gate";
  approver = approver;
  rejected = reject;
}

abbrev passed : TaskRun
passed = approved gate waiting "bob"

votes : decide_approval gate (vote "bob" false) 9 ≡ some passed
unfolding decide_approval gate
votes = ground (arith, eq_iff "ann" "bob")

decide_approval_quorum_example :
    (a : ApprovalStatus) × (passed.status.approval ≡ some a)
    × (a.approved_by ≡ append (approval_of gate "gate" 9).approved_by ("bob" ∷ []))
    × Distinct a.approved_by
    × (a.required_count ≡ (approval_of gate "gate" 9).required_count)
    × ((passed.status.phase ≡ TaskRunPhase.succeeded)
        ↔ (a.required_count ≤ℤ int32 (pos (length a.approved_by))))
unfolding approval_of gate
decide_approval_quorum_example =
    decide_approval_quorum gate (vote "bob" false) 9 passed refl votes (ground arith) (refl, tt)

stamp_cancel-reconcile_run_example :
    (count is_create (reconcile_run (calm [] []) wired (stamp_cancel run "eve") []).0 ≡ 0)
    × (cancel_message (stamp_cancel run "eve") ≡ "cancelled by " ++ "eve")
stamp_cancel-reconcile_run_example =
    stamp_cancel-reconcile_run (calm [] []) wired run "eve" [] (ground (arith, eq_iff "eve" ""))

downstream_tasks_iff_example :
    (res : List String) × (downstream_tasks tasks "compile" ≡ some res)
    × ((x : String) → Elem x res ↔ IsDownstream tasks "compile" x)
downstream_tasks_iff_example = downstream_tasks_iff tasks "compile"

downstream_runs : downstream_tasks tasks "compile" ≡ some ("lint" ∷ "unit" ∷ [])
unfolding downstream_tasks lookup insert
downstream_runs = refl
