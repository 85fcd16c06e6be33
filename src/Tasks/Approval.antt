-- ===== src/Tasks/Approval.antt =====
-- Approval tasks in the TaskRun reconciler.
use software_distribution_pl.Prelude.{◌≡◌, some, ◌∷◌, if◌then◌else◌, arith}
use software_distribution_pl.Api.Pipeline.{approval, ApprovalStatus}
use software_distribution_pl.Api.Task.{TaskRun}
use software_distribution_pl.Kube.{Cluster, Trace, update_task_status}
use software_distribution_pl.Tasks.{TaskReconciler, reconcile_approval, reconcile_task}
use software_distribution_pl.Tasks.Changes.{is_pending, initial_phase, init_approval}

module _ (k : Cluster) (r : TaskReconciler) (tr : Trace) (t : TaskRun) where
  -- The reconcile of an approval task makes one call, the write of the TaskRun with its approval
  -- record filled in, while its phase is unset or Pending, and no call otherwise.
  reconcile_task-approval :
      t.spec.type ≡ approval
      → (reconcile_task k r t tr).0 ≡ (
          if is_pending (initial_phase t.status.phase)
          then update_task_status (init_approval t (k.now tr)) ∷ tr
          else tr)
  unfolding reconcile_task reconcile_approval init_approval
  reconcile_task-approval h = ground arith

  -- The record that waits for a decision is made once: an approval that is there is kept as it is,
  -- with the users who approved.
  pub init_approval_keeps :
      (a : ApprovalStatus)
      → t.status.approval ≡ some a
      → (init_approval t (k.now tr)).status.approval ≡ some a
  unfolding init_approval
  init_approval_keeps a h = ground arith
