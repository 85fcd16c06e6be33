-- ===== src/Api/Pipeline.antt =====
-- api/v1alpha1/pipelinerun_types.go: the PipelineRun resource and the tasks of its DAG.
-- `Conditions` and `ObservedGeneration` are read and written nowhere and left out.
use software_distribution_pl.Prelude.{ℕ, ℤ, String, List, Option, Bool, Map, ◌==◌, string_eq, ◌||◌}
use software_distribution_pl.Api.Meta.{Time, Duration, ObjectMeta}
use software_distribution_pl.Api.Rollout.{RolloutSpec, RolloutPhase}

pub data PipelineTaskType : Type 0 where
  build release approval test : PipelineTaskType

-- `unset` is the zero value, which counts as parallel.
pub data ExecutionMode : Type 0 where
  unset parallel serial : ExecutionMode

pub data PipelineRunPhase : Type 0 where
  unset pending running waiting_approval succeeded failed cancelled : PipelineRunPhase

-- api/v1alpha1/taskrun_types.go: the phase of one task.
pub data TaskRunPhase : Type 0 where
  unset pending running succeeded failed skipped : TaskRunPhase

pub record Param : Type 0 where
  pub name : String
  pub value : String

pub record RepoSource : Type 0 where
  pub url : String
  pub ref : String
  pub path : String
  pub secret_ref : String

pub record RetryPolicy : Type 0 where
  pub max_retries : ℤ  -- int32
  pub backoff : Duration

pub record ApprovalConfig : Type 0 where
  pub required_approvals : ℤ  -- int32
  pub allowed_approvers : List String
  pub timeout_seconds : ℤ

pub data ReleaseSourceType : Type 0 where
  chart manifest : ReleaseSourceType

pub record ChartSource : Type 0 where
  pub repo_url : String
  pub name : String
  pub version : String

pub record ManifestSource : Type 0 where
  pub content : String

pub record ReleaseSpec : Type 0 where
  pub source : ReleaseSourceType
  pub chart : Option ChartSource
  pub manifest : Option ManifestSource
  pub values : Map String
  pub target_namespace : String
  pub canary : Option RolloutSpec

pub record PipelineTaskSpec : Type 0 where
  pub name : String
  pub type : PipelineTaskType
  pub stage : String
  pub execution_mode : ExecutionMode
  pub image : String
  pub script_path : String
  pub script_args : List String
  pub command : List String
  pub args : List String
  pub repo : Option RepoSource
  pub produces : List String
  pub consumes : List String
  pub depends_on : List String
  pub privileged : Bool
  pub retry_policy : Option RetryPolicy
  pub timeout_seconds : ℤ
  pub approval_config : Option ApprovalConfig
  pub rollout_spec : Option RolloutSpec
  pub release_spec : Option ReleaseSpec

pub record PipelineRunSpec : Type 0 where
  pub pipeline_ref : String
  pub tasks : List PipelineTaskSpec
  pub repo : Option RepoSource
  pub params : List Param
  pub tenant_id : String
  pub project_id : String
  pub environment_id : String
  pub target_namespace : String
  pub service_account_name : String
  pub timeout_seconds : ℤ
  pub triggered_by : String

pub record RolloutStatusSummary : Type 0 where
  pub phase : RolloutPhase
  pub current_step_index : ℕ
  pub current_weight : ℤ
  pub workload_ref : String
  pub message : String

pub record TaskRunStatusSummary : Type 0 where
  pub name : String
  pub task_run_ref : String
  pub phase : TaskRunPhase
  pub retry_count : ℤ  -- int32
  pub start_time : Option Time
  pub completion_time : Option Time
  pub message : String
  pub rollout : Option RolloutStatusSummary

pub record ApprovalStatus : Type 0 where
  pub task_name : String
  pub requested_at : Time
  pub required_count : ℤ  -- int32
  pub approved_by : List String
  pub rejected_by : String

pub record PipelineRunStatus : Type 0 where
  pub phase : PipelineRunPhase
  pub start_time : Option Time
  pub completion_time : Option Time
  pub tasks : List TaskRunStatusSummary
  pub current_approval : Option ApprovalStatus
  pub message : String

pub record PipelineRun : Type 0 where
  pub meta : ObjectMeta
  pub spec : PipelineRunSpec
  pub status : PipelineRunStatus

-- The switch over the known classes of environment.
unfoldable pub is_valid_environment : String → Bool
is_valid_environment s =
    s == "dev" || s == "test" || s == "staging" || s == "prod" || s == "canary" || s == "bluegreen"
