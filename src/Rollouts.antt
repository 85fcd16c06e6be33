-- ===== src/Rollouts.antt =====
-- internal/controller/rollout_controller.go: what the Rollout reconciler reads of its objects and of its
-- environment. What it takes from pkg/health, from the environment and from the formats of time is the record
-- `RolloutReconciler`.
pub mod Actions
pub mod Commands
pub mod Walk
pub mod Quiet
pub mod Holds
pub mod Sizes
pub mod Control
pub mod Gate
pub mod Changes
use Prim.Native.String.{◌++◌}
use software_distribution_pl.Prelude.{
  ℕ, ◌+◌, ◌≤◌, ltb, leb, ℤ, pos, ◌-ℤ◌, leb_ℤ, ltb_ℤ, int32, int_eq, String, string_eq, ◌==◌, Bool,
  true, false, not, ◌&&◌, ◌||◌, Option, none, some, List, [], ◌∷◌, any, length, get_elem?, Map,
  lookup, insert, erase, atoi, if◌then◌else◌,
}
use software_distribution_pl.Api.Meta.{Time, Duration, ObjectMeta, ObjectKey}
use software_distribution_pl.Api.Rollout.{
  Rollout, RolloutPhase, CanaryStep, TrafficRoutingType, ingress_canary, HealthCheckType,
  http_probe, prometheus_query,
}
use software_distribution_pl.Api.Payloads.{action_pause, action_promote, action_rollback}
use software_distribution_pl.Kube.{
  Cluster, Trace, Call, ApiError, not_found, api, Result, ok, err, Deployment, M, ◌>>=◌, ◌>>◌, pure,
  fail, read, emit, note, ignore, unless_exists, with_found, create_deployment, patch_deployment,
  create_service, create_ingress, patch_ingress, IngressSpec, patch_rollout, update_rollout_status,
  alert,
}
use software_distribution_pl.Health.{Get, Floats}
use software_distribution_pl.Canary.{
  Decision, evaluate, rollback_decision, weight_replicas, stable_of, next_weight, annotation,
  pause_start_annotation, parse_pause_start, format_pause_start, since,
}

abbrev pub ann_rollout_action : String
ann_rollout_action = "sdp.io/rollout-action"

abbrev pub ann_rollout_paused : String
ann_rollout_paused = "sdp.io/rollout-paused"

abbrev pub ann_rollout_aborted : String
ann_rollout_aborted = "sdp.io/rollout-aborted"

abbrev pub ann_rollout_operator : String
ann_rollout_operator = "sdp.io/rollout-operator"

abbrev pub health_check_interval : Duration
health_check_interval = pos 30000000000

-- What the reconciler takes from outside: the two formats of RFC 3339, the HTTP client and the floats (float64 by
-- its bits) of the active checks, the Prometheus endpoint, empty if none is set, the feature flag for the canary
-- Ingress, the text of the port in the environment, and the texts of the phases.
pub record RolloutReconciler : Type 0 where
  pub format_time : Time → String
  pub parse_time : String → Option Time
  pub http : Trace → Get
  pub floats : Floats ℕ
  pub prometheus_endpoint : String
  pub canary_ingress_enabled : Bool
  pub env_port : String
  pub phase_text : RolloutPhase → String

unfoldable pub resolve_total_replicas : Option ℤ → Option ℤ → ℤ
resolve_total_replicas (some n) live = n
resolve_total_replicas none (some n) = n
resolve_total_replicas none none = pos 2

-- The first port of the first container that declares one.
unfoldable pub first_port : List (List ℤ) → Option ℤ
first_port [] = none
first_port ([] ∷ rest) = first_port rest
first_port ((port ∷ ports) ∷ rest) = some port

unfoldable pub resolve_service_target_port : Option Deployment → ℤ → ℤ
unfolding first_port
resolve_service_target_port stable env_port =
    let declared : Option ℤ = elim stable [
      | none ↦ none
      | some dep ↦ first_port dep.container_ports
    ] in
    if ltb_ℤ (pos 0) env_port
    then env_port
    else elim declared [ none ↦ pos 8080 | some port ↦ port ]

-- What is set for the port in the environment: 0 for none.
unfoldable pub rollout_svc_target_port_env : (v : String) → ℤ
rollout_svc_target_port_env v =
    let port : ℤ = elim (atoi v) [
      | none ↦ pos 0
      | some n ↦ if leb_ℤ n (pos 0) then pos 0 else int32 n
    ] in
    if v == "" then pos 0 else port

abbrev pub canary_ingress_spec : (host path workload_ref : String) → IngressSpec
canary_ingress_spec host path workload_ref = record {
  host = host;
  path = path;
  service = workload_ref ++ "-sdp";
  port = 80;
}

abbrev pub current_step : Rollout → Option CanaryStep
current_step ro = get_elem? ro.spec.steps ro.status.current_step_index

unfoldable pub canary_replica_state : Option Deployment → ℤ × ℤ
canary_replica_state none = (pos 0, pos 0)
canary_replica_state (some dep) =
    (dep.available_replicas, elim dep.replicas [ none ↦ pos 0 | some n ↦ n ])

-- A condition is given by whether its type is ReplicaFailure and whether its status is True.
unfoldable pub canary_deployment_has_replica_failure : Option Deployment → Bool
canary_deployment_has_replica_failure none = false
canary_deployment_has_replica_failure (some dep) = any (λ c. c.0 && c.1) dep.replica_failure

abbrev pub workload_key : Rollout → String → ObjectKey
workload_key ro suffix = record {
  namespace = ro.meta.namespace;
  name = ro.spec.workload_ref ++ suffix;
}

-- The Deployment of the workload, with the labels that the Service selects.
unfoldable pub build_deployment : Rollout → String → String → ℤ → Deployment
build_deployment ro suffix image replicas = record {
  meta = record {
    name = ro.spec.workload_ref ++ suffix;
    namespace = ro.meta.namespace;
    labels =
        ("app", ro.spec.workload_ref)
        ∷ ("sdp.io/rollout", ro.spec.workload_ref)
        ∷ ("sdp.io/managed", "rollout")
        ∷ [];
    annotations = [];
  };
  replicas = some replicas;
  image = image;
  container_ports = [] ∷ [];
  available_replicas = pos 0;
  replica_failure = [];
}

abbrev pub has_replicas : Deployment → ℤ → Bool
has_replicas dep n = elim dep.replicas [ none ↦ false | some m ↦ m == n ]

abbrev pub is_failed_or_rolled_back : RolloutPhase → Bool
is_failed_or_rolled_back RolloutPhase.failed = true
is_failed_or_rolled_back RolloutPhase.rolled_back = true
is_failed_or_rolled_back _ = false

abbrev pub found : {A : Type 0} → Result A → Option A
found (ok a) = some a
found (err e) = none
