-- ===== src/Api/Payloads.antt =====
-- api/v1alpha1/gateway_payloads.go: the frames between hub and runner that the handlers decode.
-- A payload is the decoded value; `json.Unmarshal` itself is not modelled.
use software_distribution_pl.Prelude.{ℕ, String, List, Option, Bool}
use software_distribution_pl.Api.Meta.{Time}
use software_distribution_pl.Api.Pipeline.{PipelineRunPhase, PipelineRunSpec, TaskRunStatusSummary}

pub record StatusUpdatePayload : Type 0 where
  pub target_id : String
  pub pipeline_run_name : String
  pub pipeline_run_namespace : String
  pub phase : PipelineRunPhase
  pub message : String
  pub start_time : Option Time
  pub completion_time : Option Time
  pub tasks : List TaskRunStatusSummary

pub record LogChunkPayload : Type 0 where
  pub target_id : String
  pub pipeline_run_name : String
  pub task_name : String
  pub stream : String
  pub chunk : String

pub record ApplyPipelineRunPayload : Type 0 where
  pub name : String
  pub namespace : String
  pub spec : PipelineRunSpec
  pub publish_version : String

-- `RolloutAction` is a Go string: the handlers and the reconciler test it against three constants.
abbrev pub action_pause : String
action_pause = "pause"

abbrev pub action_promote : String
action_promote = "promote"

abbrev pub action_rollback : String
action_rollback = "rollback"

pub record RolloutControlPayload : Type 0 where
  pub pipeline_run_name : String
  pub task_name : String
  pub action : String
  pub operator : String

pub record ApproveTaskPayload : Type 0 where
  pub pipeline_run_name : String
  pub task_name : String
  pub approver : String
  pub rejected : Bool

pub record RerunTaskPayload : Type 0 where
  pub pipeline_run_name : String
  pub task_name : String
  pub operator : String

pub record CancelPipelineRunPayload : Type 0 where
  pub pipeline_run_name : String
  pub namespace : String
  pub operator : String

abbrev pub ann_cancel_requested : String
ann_cancel_requested = "sdp.io/cancel-requested"

abbrev pub ann_cancel_operator : String
ann_cancel_operator = "sdp.io/cancel-operator"

-- The states of an agent operation that are reported.
abbrev pub agent_op_status_running : String
agent_op_status_running = "running"

abbrev pub agent_op_status_succeeded : String
agent_op_status_succeeded = "succeeded"

abbrev pub agent_op_status_failed : String
agent_op_status_failed = "failed"

abbrev pub agent_op_stream_stdout : String
agent_op_stream_stdout = "stdout"

abbrev pub agent_op_type_exec : String
agent_op_type_exec = "exec"

abbrev pub agent_op_type_upgrade : String
agent_op_type_upgrade = "upgrade"

-- The kubeconfig is given by its bytes.
pub record AgentOpDispatchPayload : Type 0 where
  pub op_id : String
  pub target_id : String
  pub env_id : String
  pub op_type : String
  pub detail : String
  pub namespace : String
  pub kubeconfig : List ℕ

pub record AgentOpStatusPayload : Type 0 where
  pub op_id : String
  pub status : String
  pub message : String

pub record AgentInfoPayload : Type 0 where
  pub agent_version : String
  pub os : String
  pub arch : String
  pub capabilities : List String
  pub target_name : String
  pub go_version : String

pub record AgentOpLogPayload : Type 0 where
  pub op_id : String
  pub stream : String
  pub chunk : String
