-- ===== src/Tests.antt =====
-- Sample resources, and the theorems of the library applied to them.
pub mod Engine
pub mod Scheduling
pub mod Runs
pub mod TaskRuns
pub mod Delivery
pub mod Decisions
pub mod Jobs
pub mod Hub
pub mod Reads
pub mod Process
pub mod Rounds
pub mod Streams
use software_distribution_pl.Prelude.{
  ℕ, ℤ, pos, String, Bool, true, false, Option, none, some, List, [], ◌∷◌, Map,
}
use software_distribution_pl.Api.Meta.{Time, ObjectMeta}
use software_distribution_pl.Api.Rollout.{
  Rollout, RolloutSpec, RolloutStatus, RolloutPhase, CanaryStep, pod_ready, deployment_weight,
}
use software_distribution_pl.Api.Pipeline.{
  PipelineTaskType, PipelineTaskSpec, ExecutionMode, RetryPolicy, PipelineRun, PipelineRunPhase,
  TaskRunPhase,
}
use software_distribution_pl.Api.Task.{TaskRun}
use software_distribution_pl.Api.Payloads.{ann_cancel_requested}
use software_distribution_pl.Kube.{Cluster, ApiError, not_found, api, err, ok}
use software_distribution_pl.Pipelines.{Reconciler}
use software_distribution_pl.Pipelines.Changes.{build_task_run}
use software_distribution_pl.Jobs.Defaults.{new_job_builder}
use software_distribution_pl.Tasks.{TaskReconciler}

-- Ten per cent, a pause of a minute, fifty per cent, a pause without end.
abbrev pub plan : List CanaryStep
plan =
    record { set_weight = some (pos 10); pause = none }
    ∷ record { set_weight = none; pause = some (record { duration = some (pos 60000000000) }) }
    ∷ record { set_weight = some (pos 50); pause = none }
    ∷ record { set_weight = none; pause = some (record { duration = none }) }
    ∷ []

-- A Rollout of the plan at a step, a weight and a count of failures.
abbrev pub rollout_at : Bool → ℕ → ℤ → ℤ → Map String → Rollout
rollout_at auto index weight failures notes = record {
  meta = record { name = "web"; namespace = "shop"; labels = []; annotations = notes };
  spec = record {
    workload_ref = "web";
    replicas = some (pos 10);
    stable_image = "web:1";
    canary_image = "web:2";
    steps = plan;
    health_check = record {
      type = pod_ready;
      interval_seconds = pos 10;
      failure_threshold = pos 3;
      http_path = "";
      prometheus_query_expr = "";
      prometheus_threshold = "";
    };
    traffic_routing = record { type = deployment_weight; ingress_ref = "" };
    auto_rollback = auto;
  };
  status = record {
    phase = RolloutPhase.progressing;
    current_step_index = index;
    current_weight = weight;
    stable_replicas = pos 9;
    canary_replicas = pos 1;
    consecutive_failures = failures;
    last_health_check_time = none;
    start_time = none;
    completion_time = none;
    message = "";
  };
}

-- A task that uses Job execution.
abbrev pub task : String → String → ExecutionMode → List String → PipelineTaskSpec
task name stage mode upstream = record {
  name = name;
  type = PipelineTaskType.build;
  stage = stage;
  execution_mode = mode;
  image = "alpine";
  script_path = "";
  script_args = [];
  command = [];
  args = [];
  repo = none;
  produces = [];
  consumes = [];
  depends_on = upstream;
  privileged = false;
  retry_policy = some (record { max_retries = pos 2; backoff = pos 0 });
  timeout_seconds = pos 0;
  approval_config = none;
  rollout_spec = none;
  release_spec = none;
}

abbrev pub compile : PipelineTaskSpec
compile = task "compile" "" ExecutionMode.parallel []

abbrev pub lint : PipelineTaskSpec
lint = task "lint" "check" ExecutionMode.serial ("compile" ∷ [])

abbrev pub unit_test : PipelineTaskSpec
unit_test = task "unit" "check" ExecutionMode.serial ("compile" ∷ [])

abbrev pub tasks : List PipelineTaskSpec
tasks = compile ∷ lint ∷ unit_test ∷ []

abbrev pub run_with : PipelineRunPhase → Map String → PipelineRun
run_with phase notes = record {
  meta = record { name = "run-1"; namespace = "ci"; labels = []; annotations = notes };
  spec = record {
    pipeline_ref = "main";
    tasks = tasks;
    repo = none;
    params = [];
    tenant_id = "";
    project_id = "";
    environment_id = "";
    target_namespace = "shop";
    service_account_name = "";
    timeout_seconds = pos 0;
    triggered_by = "";
  };
  status = record {
    phase = phase;
    start_time = none;
    completion_time = none;
    tasks = [];
    current_approval = none;
    message = "";
  };
}

abbrev pub run : PipelineRun
run = run_with PipelineRunPhase.running []

abbrev pub cancelling : PipelineRun
cancelling = run_with PipelineRunPhase.running ((ann_cancel_requested, "true") ∷ [])

abbrev pub finished_run : PipelineRun
finished_run = run_with PipelineRunPhase.succeeded ((ann_cancel_requested, "true") ∷ [])

-- The TaskRun of a task in a phase.
unfoldable pub task_run : TaskRunPhase → PipelineTaskSpec → TaskRun
unfolding build_task_run
task_run phase t =
    let tr = build_task_run run t in record tr { status = record (tr.status) { phase = phase } }

-- The compile task has Succeeded; nothing else was started.
abbrev pub compiled : Map TaskRun
compiled = ("compile", task_run TaskRunPhase.succeeded compile) ∷ []

abbrev pub broken : Map TaskRun
broken = ("compile", task_run TaskRunPhase.failed compile) ∷ []

-- A cluster that accepts every write and lists the given TaskRuns and runs.
abbrev pub calm : List TaskRun → List PipelineRun → Cluster
calm items runs = record {
  write = λ tr c. none;
  stored_run = λ tr pr. pr;
  stored_rollout = λ tr ro. ro;
  get_run = λ tr key. ok run;
  get_task_run = λ tr key. err (api not_found);
  get_rollout = λ tr key. err (api not_found);
  get_job = λ tr key. err (api not_found);
  get_deployment = λ tr key. err (api not_found);
  get_namespace = λ tr name. ok tt;
  get_service = λ tr key. err (api not_found);
  get_ingress = λ tr key. err (api not_found);
  get_ca_map = λ tr key. err (api not_found);
  list_task_runs = λ tr ns labels. ok items;
  list_rollouts = λ tr ns labels. ok [];
  list_runs = λ tr labels. ok runs;
  set_owner = λ owner object. none;
  visit = λ ts. ts;
  now = λ tr. 1000;
  is_streaming = λ tr key. false;
}

abbrev pub wired : Reconciler
wired = record { connected = true; target_name = "site-a" }

abbrev pub task_wired : TaskReconciler
task_wired = record {
  job_builder = record new_job_builder { hub_ca_bundle = "PEM" };
  visit_values = λ m. m;
  can_stream = true;
}
