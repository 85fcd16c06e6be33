-- ===== src/Dispatch/Requests.antt =====
-- Requests that the handlers leave as annotations, as the reconcilers read them.
use Prim.Native.String.{◌++◌}
use software_distribution_pl.Prelude.{
  ◌≡◌, ◌≢◌, refl, ◌∙◌, String, string_eq, eq_iff, true, some, lookup, insert, lookup-insert,
  has_key, arith,
}
use software_distribution_pl.Api.Rollout.{Rollout}
use software_distribution_pl.Api.Pipeline.{PipelineRun}
use software_distribution_pl.Api.Payloads.{ann_cancel_requested, ann_cancel_operator}
use software_distribution_pl.Kube.{Cluster, Trace}
use software_distribution_pl.Kube.Counts.{count}
use software_distribution_pl.Canary.{annotation}
use software_distribution_pl.Pipelines.{Reconciler, reconcile_run}
use software_distribution_pl.Pipelines.Changes.{cancel_message}
use software_distribution_pl.Pipelines.Cancel.{is_create, reconcile_run-cancel}
use software_distribution_pl.Rollouts.{ann_rollout_action, ann_rollout_operator}
use software_distribution_pl.Dispatch.{stamp_cancel, stamp_action}

-- What the two stamps of a cancel leave.
stamped_request :
    (pr : PipelineRun) (operator : String)
    → lookup ann_cancel_requested (stamp_cancel pr operator).meta.annotations ≡ some "true"
unfolding stamp_cancel
stamped_request pr operator =
    let m = insert ann_cancel_requested "true" pr.meta.annotations in
    lookup-insert ann_cancel_operator ann_cancel_requested operator m
    ∙ lookup-insert ann_cancel_requested ann_cancel_requested "true" pr.meta.annotations

stamped_operator :
    (pr : PipelineRun) (operator : String)
    → lookup ann_cancel_operator (stamp_cancel pr operator).meta.annotations ≡ some operator
unfolding stamp_cancel
stamped_operator pr operator =
    lookup-insert ann_cancel_operator ann_cancel_operator operator
      (insert ann_cancel_requested "true" pr.meta.annotations)

stamped :
    (pr : PipelineRun) (operator : String)
    → has_key ann_cancel_requested (stamp_cancel pr operator).meta.annotations ≡ true
unfolding has_key
stamped pr operator = rw (stamped_request pr operator, has_key) refl

-- After the cancel handler has stamped a run for a named operator, a reconcile of the stamped run
-- creates no TaskRun, and the message of the cancel names the operator.
pub stamp_cancel-reconcile_run :
    (k : Cluster) (r : Reconciler) (pr : PipelineRun) (operator : String) (tr : Trace)
    → operator ≢ ""
    → (count is_create (reconcile_run k r (stamp_cancel pr operator) tr).0 ≡ count is_create tr)
      × (cancel_message (stamp_cancel pr operator) ≡ "cancelled by " ++ operator)
unfolding cancel_message
stamp_cancel-reconcile_run k r pr operator tr named = (
  reconcile_run-cancel k r (stamp_cancel pr operator) (stamped pr operator) tr,
  rw (stamped_operator pr operator, cancel_message) (ground (arith, eq_iff operator "")),
)

-- The command and the named operator that the rollout control handler stamps on a Rollout are the
-- ones that the reconciler reads from its annotations.
annotation-stamp_action :
    (ro : Rollout) (action operator : String)
    → operator ≢ ""
    → (annotation ann_rollout_action (stamp_action ro action operator).meta.annotations ≡ action)
      × (annotation ann_rollout_operator (stamp_action ro action operator).meta.annotations
          ≡ operator)
unfolding stamp_action annotation
annotation-stamp_action ro action operator named =
    let m = insert ann_rollout_action action ro.meta.annotations in
    let kept : lookup ann_rollout_action (insert ann_rollout_operator operator m) ≡ some action =
      lookup-insert ann_rollout_operator ann_rollout_action operator m
      ∙ lookup-insert ann_rollout_action ann_rollout_action action ro.meta.annotations in
    let by : lookup ann_rollout_operator (insert ann_rollout_operator operator m) ≡ some operator =
      lookup-insert ann_rollout_operator ann_rollout_operator operator m in
    (ground (arith, eq_iff operator "", kept), ground (arith, eq_iff operator "", by))
