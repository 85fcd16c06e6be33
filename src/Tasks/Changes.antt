-- ===== src/Tasks/Changes.antt =====
-- internal/controller/taskrun_controller.go: the values that the TaskRun reconciler stores.
use software_distribution_pl.Prelude.{
  ℤ, pos, ◌+ℤ◌, int32, String, string_eq, Bool, true, false, none, some, [], ◌∷◌,
}
use software_distribution_pl.Api.Meta.{Duration, Time}
use software_distribution_pl.Api.Rollout.{Rollout, RolloutSpec, RolloutPhase}
use software_distribution_pl.Api.Pipeline.{PipelineTaskType, approval, release, TaskRunPhase}
use software_distribution_pl.Api.Task.{TaskRun}

abbrev pub is_done : TaskRunPhase → Bool
is_done TaskRunPhase.succeeded = true
is_done TaskRunPhase.failed = true
is_done _ = false

abbrev pub initial_phase : TaskRunPhase → TaskRunPhase
initial_phase TaskRunPhase.unset = TaskRunPhase.pending
initial_phase p = p

abbrev pub is_pending : TaskRunPhase → Bool
is_pending TaskRunPhase.pending = true
is_pending _ = false

abbrev pub is_approval : PipelineTaskType → Bool
is_approval approval = true
is_approval _ = false

abbrev pub is_release : PipelineTaskType → Bool
is_release release = true
is_release _ = false

unfoldable pub required_count : TaskRun → ℤ
required_count t = elim t.spec.approval_config [ none ↦ pos 1 | some c ↦ c.required_approvals ]

-- The TaskRun of an approval task once its status is filled in.
unfoldable pub init_approval : TaskRun → Time → TaskRun
init_approval t now = record t {
  status = record (t.status) {
    phase = initial_phase t.status.phase;
    approval = elim t.status.approval [
      | some a ↦ some a
      | none ↦ some (record {
        task_name = t.spec.task_name;
        requested_at = now;
        required_count = required_count t;
        approved_by = [];
        rejected_by = "";
      })
    ];
  };
}

abbrev pub max_retries : TaskRun → ℤ
max_retries t = elim t.spec.retry_policy [ none ↦ pos 0 | some p ↦ p.max_retries ]

abbrev pub backoff_of : TaskRun → Duration
backoff_of t = elim t.spec.retry_policy [ none ↦ pos 0 | some p ↦ p.backoff ]

-- A TaskRun whose Job is deleted and is to be built again.
unfoldable pub retried : TaskRun → TaskRun
retried t = record t {
  status = record (t.status) { retry_count = int32 (t.status.retry_count +ℤ pos 1); job_ref = "" };
}

unfoldable pub finished : TaskRun → TaskRunPhase → Time → TaskRun
finished t phase now = record t {
  status = record (t.status) { phase = phase; completion_time = some now };
}

-- A TaskRun whose Job has been created.
unfoldable pub begun : TaskRun → String → Time → TaskRun
begun t name now = record t {
  status = record (t.status) {
    phase = TaskRunPhase.running;
    job_ref = name;
    start_time = some now;
  };
}

-- What the phase of a Rollout makes of its TaskRun.
unfoldable pub mirror_rollout : TaskRun → Rollout → Time → TaskRun
mirror_rollout t ro now =
    let running = record t { status = record (t.status) { phase = TaskRunPhase.running } } in
    let lost = record t {
      status = record (t.status) {
        phase = TaskRunPhase.failed;
        message = ro.status.message;
        completion_time = some now;
      };
    } in
    elim ro.status.phase [
      | RolloutPhase.healthy ↦ finished t TaskRunPhase.succeeded now
      | RolloutPhase.degraded ↦ lost
      | RolloutPhase.rolling_back ↦ lost
      | RolloutPhase.failed ↦ lost
      | RolloutPhase.rolled_back ↦ lost
      | _ ↦ running
    ]

-- The Rollout that a Deploy task creates.
unfoldable pub build_rollout : TaskRun → RolloutSpec → Rollout
build_rollout t spec = record {
  meta = record {
    name = t.meta.name;
    namespace = t.spec.namespace;
    labels =
        ("sdp.io/pipeline-run", t.spec.pipeline_run_ref) ∷ ("sdp.io/task-run", t.meta.name) ∷ [];
    annotations = [];
  };
  spec = spec;
  status = record {
    phase = RolloutPhase.unset;
    current_step_index = 0;
    current_weight = pos 0;
    stable_replicas = pos 0;
    canary_replicas = pos 0;
    consecutive_failures = pos 0;
    last_health_check_time = none;
    start_time = none;
    completion_time = none;
    message = "";
  };
}
