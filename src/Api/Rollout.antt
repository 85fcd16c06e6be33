-- ===== src/Api/Rollout.antt =====
-- api/v1alpha1/rollout_types.go: the Rollout resource. `Conditions` is written nowhere and left out.
use software_distribution_pl.Prelude.{ℕ, ℤ, String, List, Option, Bool}
use software_distribution_pl.Api.Meta.{Time, Duration, ObjectMeta}

-- `unset` is the empty string of a Rollout that no reconcile has seen.
pub data RolloutPhase : Type 0 where
  unset progressing paused healthy degraded rolling_back failed rolled_back : RolloutPhase

pub data TrafficRoutingType : Type 0 where
  deployment_weight ingress_canary : TrafficRoutingType

pub record PauseStep : Type 0 where
  pub duration : Option Duration

pub record CanaryStep : Type 0 where
  pub set_weight : Option ℤ
  pub pause : Option PauseStep

pub data HealthCheckType : Type 0 where
  pod_ready http_probe prometheus_query : HealthCheckType

pub record HealthCheckSpec : Type 0 where
  pub type : HealthCheckType
  pub interval_seconds : ℤ  -- int64
  pub failure_threshold : ℤ  -- int32
  pub http_path : String
  pub prometheus_query_expr : String
  pub prometheus_threshold : String

pub record TrafficRoutingSpec : Type 0 where
  pub type : TrafficRoutingType
  pub ingress_ref : String

pub record RolloutSpec : Type 0 where
  pub workload_ref : String
  pub replicas : Option ℤ  -- int32
  pub stable_image : String
  pub canary_image : String
  pub steps : List CanaryStep
  pub health_check : HealthCheckSpec
  pub traffic_routing : TrafficRoutingSpec
  pub auto_rollback : Bool

-- The step index is an index into `Steps` and starts at 0; the other counts are int32.
pub record RolloutStatus : Type 0 where
  pub phase : RolloutPhase
  pub current_step_index : ℕ
  pub current_weight : ℤ
  pub stable_replicas : ℤ
  pub canary_replicas : ℤ
  pub consecutive_failures : ℤ
  pub last_health_check_time : Option Time
  pub start_time : Option Time
  pub completion_time : Option Time
  pub message : String

pub record Rollout : Type 0 where
  pub meta : ObjectMeta
  pub spec : RolloutSpec
  pub status : RolloutStatus
