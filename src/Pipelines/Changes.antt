-- ===== src/Pipelines/Changes.antt =====
-- internal/controller/pipelinerun_controller.go and pipelinerun_cancel.go: the values that the PipelineRun
-- reconciler creates, stores and reports.
use Prim.Native.String.{◌++◌}
use software_distribution_pl.Prelude.{
  pos, String, string_eq, ◌==◌, Bool, true, false, not, Option, none, some, List, [], ◌∷◌, lookup,
  erase, if◌then◌else◌,
}
use software_distribution_pl.Api.Meta.{ObjectMeta, ObjectKey}
use software_distribution_pl.Api.Pipeline.{
  PipelineRun, PipelineRunPhase, PipelineTaskSpec, TaskRunPhase,
}
use software_distribution_pl.Api.Task.{TaskRun}
use software_distribution_pl.Api.Payloads.{
  StatusUpdatePayload, ann_cancel_requested, ann_cancel_operator,
}
use software_distribution_pl.Kube.{ApiError, M, answer}

abbrev pub key_of : ObjectMeta → ObjectKey
key_of m = record { namespace = m.namespace; name = m.name }

abbrev pub is_empty {ℓ} : {A : Type ℓ} → List A → Bool
is_empty [] = true
is_empty (x ∷ xs) = false

abbrev pub check : Option ApiError → M (Unit {0})
check e = λ tr. (tr, answer e)

-- `if pr.Status.Phase == "" { pr.Status.Phase = Pending }`
abbrev pub initial_phase : PipelineRunPhase → PipelineRunPhase
initial_phase PipelineRunPhase.unset = PipelineRunPhase.pending
initial_phase p = p

unfoldable pub cancel_message : PipelineRun → String
cancel_message pr = elim (lookup ann_cancel_operator pr.meta.annotations) [
  | none ↦ "cancelled"
  | some operator ↦ if not (operator == "") then "cancelled by " ++ operator else "cancelled"
]

unfoldable pub status_payload : String → PipelineRun → StatusUpdatePayload
status_payload target pr = record {
  target_id = target;
  pipeline_run_name = pr.meta.name;
  pipeline_run_namespace = pr.meta.namespace;
  phase = pr.status.phase;
  message = pr.status.message;
  start_time = pr.status.start_time;
  completion_time = pr.status.completion_time;
  tasks = pr.status.tasks;
}

unfoldable pub build_task_run : PipelineRun → PipelineTaskSpec → TaskRun
build_task_run pr task = record {
  meta = record {
    name = pr.meta.name ++ "-" ++ task.name;
    namespace = pr.meta.namespace;
    labels = ("sdp.io/pipeline-run", pr.meta.name) ∷ ("sdp.io/task", task.name) ∷ [];
    annotations = [];
  };
  spec = record {
    pipeline_run_ref = pr.meta.name;
    task_name = task.name;
    type = task.type;
    image = task.image;
    script_path = task.script_path;
    script_args = task.script_args;
    command = task.command;
    args = task.args;
    env = [];
    resources = record { limits = []; requests = [] };
    repo = elim task.repo [ some own ↦ some own | none ↦ pr.spec.repo ];
    produces = task.produces;
    consumes = task.consumes;
    namespace = pr.spec.target_namespace;
    service_account_name = pr.spec.service_account_name;
    retry_policy = none;
    timeout_seconds = task.timeout_seconds;
    approval_config = task.approval_config;
    rollout_spec = task.rollout_spec;
    release_spec = task.release_spec;
    params = pr.spec.params;
    privileged = task.privileged;
  };
  status = record {
    phase = TaskRunPhase.unset;
    job_ref = "";
    rollout_ref = "";
    pod_name = "";
    start_time = none;
    completion_time = none;
    retry_count = pos 0;
    exit_code = none;
    message = "";
    approval = none;
  };
}

-- The run without the pair of cancel annotations.
unfoldable pub without_request : PipelineRun → PipelineRun
without_request pr = record pr {
  meta = record (pr.meta) {
    annotations = erase ann_cancel_operator (erase ann_cancel_requested pr.meta.annotations);
  };
}
