-- ===== src/Api/Task.antt =====
-- api/v1alpha1/taskrun_types.go: the TaskRun resource. `Conditions` and `LogsRef` are touched by
-- no operation and left out.
use software_distribution_pl.Prelude.{ℤ, String, List, Option, Bool}
use software_distribution_pl.Api.Meta.{Time, ObjectMeta}
use software_distribution_pl.Api.Job.{EnvVar, ResourceRequirements}
use software_distribution_pl.Api.Rollout.{RolloutSpec}
use software_distribution_pl.Api.Pipeline.{
  PipelineTaskType, TaskRunPhase, RepoSource, RetryPolicy, ApprovalConfig, ReleaseSpec, Param,
  ApprovalStatus,
}

pub record TaskRunSpec : Type 0 where
  pub pipeline_run_ref : String
  pub task_name : String
  pub type : PipelineTaskType
  pub image : String
  pub script_path : String
  pub script_args : List String
  pub command : List String
  pub args : List String
  pub env : List EnvVar
  pub resources : ResourceRequirements
  pub repo : Option RepoSource
  pub produces : List String
  pub consumes : List String
  pub namespace : String
  pub service_account_name : String
  pub retry_policy : Option RetryPolicy
  pub timeout_seconds : ℤ
  pub approval_config : Option ApprovalConfig
  pub rollout_spec : Option RolloutSpec
  pub release_spec : Option ReleaseSpec
  pub params : List Param
  pub privileged : Bool

pub record TaskRunStatus : Type 0 where
  pub phase : TaskRunPhase
  pub job_ref : String
  pub rollout_ref : String
  pub pod_name : String
  pub start_time : Option Time
  pub completion_time : Option Time
  pub retry_count : ℤ  -- int32
  pub exit_code : Option ℤ
  pub message : String
  pub approval : Option ApprovalStatus

pub record TaskRun : Type 0 where
  pub meta : ObjectMeta
  pub spec : TaskRunSpec
  pub status : TaskRunStatus
