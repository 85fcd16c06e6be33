-- ===== src/Runner.antt =====
-- cmd/runner/main.go: what the process makes of its environment, and the loop that starts the manager. The
-- registration of handlers and reconcilers is wiring.
pub mod Bearer
pub mod Start
pub mod Wiring
pub mod Stages
pub mod Addressed
pub mod Hook
use software_distribution_pl.Prelude.{
  ℕ, zero, suc, ◌*◌, String, string_eq, ◌==◌, ltb, leb, Bool, true, false, not, ◌&&◌, Option, none,
  some, List, [], ◌∷◌, if◌then◌else◌,
}
use software_distribution_pl.Api.Meta.{Duration}
use software_distribution_pl.Connector.{
  Client, Runtime, new, with_enroll_info, with_enroll_bootstrap, with_agent_info,
}
use software_distribution_pl.AgentOps.Specs.{
  Handler, default_image, default_timeout, default_self_deployment, default_self_container,
  default_self_sa, default_runner_image_name, default_kubectl_image,
}
use software_distribution_pl.Jobs.Defaults.{
  JobBuilder, default_git_image, default_artifact_image, default_helm_image,
  default_kubectl_image as default_job_kubectl_image,
}

-- What the process finds: its variables, empty if they are not set, the files that can be read, and the
-- durations that package time reads.
pub record Host : Type 0 where
  pub getenv : String → String
  pub read_file : String → Option String
  pub file_exists : String → Bool
  pub parse_duration : String → Option Duration
  pub runtime : Runtime
  pub runner_version : String

-- A process that ends with a message, or its parts.
pub data Startup {ℓ} (A : Type ℓ) : Type ℓ where
  fatal : (message : String) → Startup A
  ready : A → Startup A

module _ (host : Host) where
  unfoldable pub must_env : String → Startup String
  must_env key =
      if host.getenv key == "" then fatal "missing required env var" else ready (host.getenv key)

  abbrev pub env_or : String → String → String
  env_or key fallback = if not (host.getenv key == "") then host.getenv key else fallback

  unfoldable pub env_duration_or : String → Duration → Duration
  env_duration_or key fallback =
      let parsed : Duration = elim (host.parse_duration (host.getenv key)) [
        | none ↦ fallback
        | some d ↦ d
      ] in
      if not (host.getenv key == "") then parsed else fallback

  unfoldable pub read_hub_ca_bundle : String → String
  read_hub_ca_bundle path =
      let content : String = elim (host.read_file path) [ none ↦ "" | some text ↦ text ] in
      if path == "" then "" else content

  abbrev pub credential_file : String
  credential_file = env_or "SDP_RUNNER_CREDENTIAL_FILE" "/etc/sdp-runner/credential"

  -- Whether the process refuses to start: it has no token, and the credential file does not exist.
  unfoldable pub lacks_credentials : Bool
  lacks_credentials =
      (host.getenv "TARGET_AUTH_TOKEN" == "" && host.getenv "SDP_ENROLL_TOKEN" == "")
      && not (host.file_exists credential_file)

  unfoldable pub build_client : (hub_url target_name : String) → Client
  build_client hub_url target_name =
      let vendor = host.getenv "TARGET_VENDOR" in
      let region = host.getenv "TARGET_REGION" in
      let base =
        with_enroll_bootstrap (new hub_url target_name (host.getenv "TARGET_AUTH_TOKEN"))
          (host.getenv "SDP_ENROLL_TOKEN") credential_file in
      let enrolled =
        if not (vendor == "") && not (region == "")
        then with_enroll_info base vendor region
        else base in
      with_agent_info host.runtime enrolled (record {
        agent_version = host.runner_version;
        os = "";
        arch = "";
        capabilities = "exec" ∷ "rollout" ∷ "logstream" ∷ [];
        target_name = target_name;
        go_version = "";
      })

  abbrev pub with_hub : (target_name : String) → (hub_url : Startup String) → Startup Client
  with_hub target_name (fatal message) = fatal message
  with_hub target_name (ready hub_url) = ready (build_client hub_url target_name)

  abbrev pub with_target : (target_name hub_url : Startup String) → Startup Client
  with_target (fatal message) hub_url = fatal message
  with_target (ready target_name) hub_url =
      if lacks_credentials then fatal "no credentials available" else with_hub target_name hub_url

  -- The client of the connection, unless the process refuses to start.
  unfoldable pub connect : Startup Client
  connect = with_target (must_env "TARGET_NAME") (must_env "HUB_GATEWAY_URL")

  unfoldable pub build_agent_handler : (target_name : String) → Handler
  unfolding env_duration_or
  build_agent_handler target_name = record {
    has_clientset = true;
    target_name = target_name;
    image = env_or "SDP_AGENT_EXEC_IMAGE" default_image;
    timeout = env_duration_or "SDP_AGENT_EXEC_TIMEOUT" default_timeout;
    self_namespace = host.getenv "SDP_RUNNER_NAMESPACE";
    self_deployment = env_or "SDP_RUNNER_DEPLOYMENT" default_self_deployment;
    self_container = env_or "SDP_RUNNER_CONTAINER" default_self_container;
    self_sa = env_or "SDP_UPGRADE_SA" default_self_sa;
    self_runner_image = env_or "SDP_RUNNER_IMAGE" default_runner_image_name;
    self_kubectl_image = env_or "SDP_UPGRADE_KUBECTL_IMAGE" default_kubectl_image;
    self_upgrade_disabled = host.getenv "SDP_UPGRADE_DISABLED" == "true";
  }

  unfoldable pub build_job_builder : JobBuilder
  unfolding read_hub_ca_bundle
  build_job_builder = record {
    git_image = env_or "SDP_JOB_IMAGE_GIT" default_git_image;
    artifact_image = env_or "SDP_JOB_IMAGE_ARTIFACT" default_artifact_image;
    helm_image = env_or "SDP_JOB_IMAGE_HELM" default_helm_image;
    kubectl_image = env_or "SDP_JOB_IMAGE_KUBECTL" default_job_kubectl_image;
    hub_base_url = env_or "SDP_HUB_BASE_URL" "https://hub.sdp-workflow.svc:8080";
    hub_api_token = host.getenv "SDP_HUB_API_TOKEN";
    hub_ca_bundle = read_hub_ca_bundle (host.getenv "SDP_HUB_CA_FILE");
  }

abbrev pub max_manager_start_attempts : ℕ
max_manager_start_attempts = 10

-- How one start of the manager ends: cleanly, with an error once the context is done, with an error, or with an
-- error and the context done during the wait that follows.
pub data Attempt : Type 0 where
  stops fails_at_shutdown fails fails_then_done : Attempt

pub data End : Type 0 where
  shutdown gave_up : End

-- How the loop ends, and the waits in seconds.
pub record Run : Type 0 where
  pub end : End
  pub waits : List ℕ

abbrev pub waited : ℕ → Option Run → Option Run
waited backoff none = none
waited backoff (some r) = some (record r { waits = backoff ∷ r.waits })

-- What follows an attempt; `later` is the rest of the loop.
unfoldable pub after_attempt : Attempt → (is_last : Bool) → (backoff : ℕ) → Option Run → Option Run
after_attempt stops is_last backoff later = some (record { end = shutdown; waits = [] })
after_attempt fails_at_shutdown is_last backoff later = some (record { end = shutdown; waits = [] })
after_attempt fails true backoff later = some (record { end = gave_up; waits = [] })
after_attempt fails false backoff later = waited backoff later
after_attempt fails_then_done true backoff later = some (record { end = gave_up; waits = [] })
after_attempt fails_then_done false backoff later =
    some (record { end = shutdown; waits = backoff ∷ [] })

-- The loop from an attempt on, on fuel.
unfoldable pub start_from : (outcome : ℕ → Attempt) → (fuel attempt backoff : ℕ) → Option Run
unfolding after_attempt
start_from outcome zero attempt backoff = none
start_from outcome (suc fuel) attempt backoff =
    let later =
      start_from outcome fuel (suc attempt) (if ltb backoff 30 then backoff * 2 else backoff) in
    after_attempt (outcome attempt) (leb max_manager_start_attempts attempt) backoff later

-- One round for each attempt.
unfoldable pub start_loop : (outcome : ℕ → Attempt) → Option Run
unfolding start_from
start_loop outcome = start_from outcome max_manager_start_attempts 1 1
