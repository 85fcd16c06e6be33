-- ===== src/AgentOps/Specs.antt =====
-- internal/agentops/handler.go: the settings of the handler and the Jobs that it builds, without effects.
use Prim.Native.String.{◌++◌, len, slice}
use software_distribution_pl.Prelude.{
  ℤ, pos, ltb_ℤ, String, string_eq, ◌==◌, ltb, Bool, not, Option, none, some, [], ◌∷◌, trim_space,
  if◌then◌else◌,
}
use software_distribution_pl.Api.Meta.{Duration}
use software_distribution_pl.Api.Job.{Container, Job}
use software_distribution_pl.Api.Payloads.{AgentOpDispatchPayload}

abbrev pub default_image : String
default_image = "harbor.sdpworkflow.com/sdp/busybox:1.36"

-- Ten minutes.
abbrev pub default_timeout : Duration
default_timeout = pos 600000000000

abbrev pub default_kubectl_image : String
default_kubectl_image = "harbor.sdpworkflow.com/sdp/kubectl:1.30"

abbrev pub default_runner_image_name : String
default_runner_image_name = "harbor.sdpworkflow.com/sdp/software-distribution-platform-runner"

abbrev pub default_self_deployment : String
default_self_deployment = "runner"

abbrev pub default_self_container : String
default_self_container = "container-1"

abbrev pub default_self_sa : String
default_self_sa = "sdp-runner"

abbrev pub job_ttl_seconds : ℤ
job_ttl_seconds = pos 3600

abbrev pub fallback_namespace : String
fallback_namespace = "default"

-- The in-cluster client is only told apart from nil.
pub record Handler : Type 0 where
  pub has_clientset : Bool
  pub target_name : String
  pub image : String
  pub timeout : Duration
  pub self_namespace : String
  pub self_deployment : String
  pub self_container : String
  pub self_sa : String
  pub self_runner_image : String
  pub self_kubectl_image : String
  pub self_upgrade_disabled : Bool

abbrev pub or_default : String → String → String
or_default v default = if not (v == "") then v else default

abbrev pub image : Handler → String
image h = if not (h.image == "") then h.image else default_image

abbrev pub timeout : Handler → Duration
timeout h = if ltb_ℤ (pos 0) h.timeout then h.timeout else default_timeout

-- The content of the file of the service account, or none at a read error.
abbrev pub self_namespace : Handler → Option String → String
self_namespace h file =
    if not (h.self_namespace == "")
    then h.self_namespace
    else elim file [ none ↦ fallback_namespace | some text ↦ trim_space text ]

-- A Job of one container that is not retried and is removed an hour after its end.
abbrev pub op_job :
    (name generate_name namespace service_account : String)
    → AgentOpDispatchPayload
    → Container
    → Job
op_job name generate_name namespace service_account p c = record {
  meta = record {
    name = name;
    namespace = namespace;
    labels = ("sdp.io/agent-op", p.op_id) ∷ ("sdp.io/target", p.target_id) ∷ [];
    annotations = [];
  };
  generate_name = generate_name;
  backoff_limit = pos 0;
  active_deadline_seconds = none;
  ttl_seconds_after_finished = some job_ttl_seconds;
  restart_policy = "Never";
  service_account_name = service_account;
  init_containers = [];
  containers = c ∷ [];
  volumes = [];
}

abbrev pub shell : (name image script : String) → Container
shell name image script = record {
  name = name;
  image = image;
  command = "sh" ∷ "-c" ∷ script ∷ [];
  args = [];
  env = [];
  env_from = [];
  resources = record { limits = []; requests = [] };
  working_dir = "";
  volume_mounts = [];
  privileged = none;
}

unfoldable pub build_job_spec : AgentOpDispatchPayload → (image : String) → String × Job
build_job_spec p image =
    let ns = if p.namespace == "" then fallback_namespace else p.namespace in
    (ns, op_job "" "sdp-agentop-" ns "" p (shell "exec" image p.detail))

pub record UpgradeOpts : Type 0 where
  pub namespace : String
  pub deployment : String
  pub container : String
  pub service_acct : String
  pub new_image : String
  pub kubectl_img : String
  pub timeout : String

abbrev pub upgrade_opts : Handler → (namespace : String) → UpgradeOpts
upgrade_opts h namespace = record {
  namespace = namespace;
  deployment = or_default h.self_deployment default_self_deployment;
  container = or_default h.self_container default_self_container;
  service_acct = or_default h.self_sa default_self_sa;
  new_image = or_default h.self_runner_image default_runner_image_name;
  kubectl_img = or_default h.self_kubectl_image default_kubectl_image;
  timeout = "8m";
}

abbrev pub upgrade_script : UpgradeOpts → (image : String) → String
upgrade_script o image =
    "kubectl -n " ++ o.namespace ++ " set image deployment/" ++ o.deployment ++ " " ++ o.container
    ++ "=" ++ image ++ " && kubectl -n " ++ o.namespace ++ " rollout status deployment/"
    ++ o.deployment ++ " --timeout=" ++ o.timeout

-- `p.OpID[:8]` panics, none, if the text has less than eight bytes.
unfoldable pub op_prefix : String → Option String
op_prefix id = if ltb (len id) 8 then none else some (slice id 0 8)

unfoldable pub build_upgrade_job_spec : AgentOpDispatchPayload → UpgradeOpts → Option (String × Job)
unfolding op_prefix
build_upgrade_job_spec p o = elim (op_prefix p.op_id) [
  | none ↦ none
  | some prefix ↦ some (
    o.namespace,
    op_job ("sdp-upgrade-" ++ prefix) "" o.namespace o.service_acct p
        (shell "upgrade" o.kubectl_img (upgrade_script o (o.new_image ++ ":" ++ p.detail))),
  )
]
