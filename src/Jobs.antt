-- ===== src/Jobs.antt =====
-- pkg/executor/job_builder.go: the Job that a TaskRun is turned into. The order in which a `range`
-- visits the values of a release, which is a Go map, is a parameter.
pub mod Names
pub mod Defaults
pub mod Containers
pub mod Env
pub mod Protected
pub mod Params
pub mod Mounts
pub mod Releases
use Prim.Native.String.{◌++◌}
use software_distribution_pl.Prelude.{
  ℤ, pos, ltb_ℤ, String, string_eq, ◌==◌, Bool, true, false, not, ◌&&◌, Option, none, some, List,
  [], ◌∷◌, ◌++◌ as join, map, Map, if◌then◌else◌,
}
use software_distribution_pl.Api.Job.{
  EnvVar, ResourceRequirements, VolumeMount, Container, empty_dir, config_map, Volume, Job,
}
use software_distribution_pl.Api.Pipeline.{
  Param, RepoSource, ReleaseSpec, ReleaseSourceType, ChartSource, PipelineTaskType, release,
}
use software_distribution_pl.Api.Task.{TaskRun}
use software_distribution_pl.Jobs.Defaults.{
  workspace_mount_path, hub_ca_config_map_name, hub_ca_volume_name, hub_ca_mount_path, hub_ca_key,
  hub_ca_cert_file, JobBuilder, first_non_empty, join_comma, var, params_to_env, workspace_mount,
  plain, apply_privileged, consume_fetch_script, main_command, main_args, flag, set_flags,
}
use software_distribution_pl.Jobs.Containers.{
  checkout_container, consume_container, release_container, main_container,
}

abbrev pub is_plain_release : TaskRun → Bool
is_plain_release tr = elim tr.spec.type [
  | release ↦ elim tr.spec.rollout_spec [ none ↦ true | some _ ↦ false ]
  | _ ↦ false
]

abbrev pub ca_mount : VolumeMount
ca_mount = record { name = hub_ca_volume_name; mount_path = hub_ca_mount_path; read_only = true }

-- The mount and the variable that make a container trust the hub.
unfoldable pub with_ca : Container → Container
with_ca c = record c {
  volume_mounts = join c.volume_mounts (ca_mount ∷ []);
  env = join c.env (var "SSL_CERT_FILE" hub_ca_cert_file ∷ []);
}

module _ (b : JobBuilder) where
  unfoldable pub trust_hub : Container → Container
  unfolding with_ca
  trust_hub c = if b.hub_ca_bundle == "" then c else with_ca c

  -- Of the init containers, the one that calls the hub.
  unfoldable pub trust_hub_init : Container → Container
  unfolding trust_hub
  trust_hub_init c = if c.name == "fetch-artifacts" then trust_hub c else c

  unfoldable pub ca_volumes : List Volume
  ca_volumes =
      if b.hub_ca_bundle == ""
      then []
      else record {
        name = hub_ca_volume_name;
        source = config_map hub_ca_config_map_name ((hub_ca_key, hub_ca_key) ∷ []);
      }
        ∷ []

  unfoldable pub checkout_of : Option RepoSource → List Container
  unfolding checkout_container
  checkout_of none = []
  checkout_of (some repo) = checkout_container b repo ∷ []

  unfoldable pub consume_of : List String → List Param → List Container
  unfolding consume_container
  consume_of [] params = []
  consume_of (key ∷ keys) params = consume_container b (key ∷ keys) params ∷ []

  unfoldable pub init_containers : TaskRun → List Container
  unfolding checkout_of consume_of
  init_containers tr = join (checkout_of tr.spec.repo) (consume_of tr.spec.consumes tr.spec.params)

  module _ (visit : Map String → Map String) where
    -- The container of the task itself.
    unfoldable pub task_container : TaskRun → Container
    unfolding release_container main_container
    task_container tr =
        if is_plain_release tr then release_container b visit tr else main_container b tr

    unfoldable pub build : TaskRun → Job
    unfolding task_container init_containers trust_hub trust_hub_init ca_volumes
    build tr = record {
      meta = record {
        name = "taskrun-" ++ tr.meta.name;
        namespace = tr.spec.namespace;
        labels =
            ("sdp.io/pipeline-run", tr.spec.pipeline_run_ref)
            ∷ ("sdp.io/task-run", tr.meta.name)
            ∷ [];
        annotations = [];
      };
      generate_name = "";
      backoff_limit = pos 0;
      active_deadline_seconds =
          if ltb_ℤ (pos 0) tr.spec.timeout_seconds then some tr.spec.timeout_seconds else none;
      ttl_seconds_after_finished = none;
      restart_policy = "Never";
      service_account_name = tr.spec.service_account_name;
      init_containers = map trust_hub_init (init_containers tr);
      containers = trust_hub (task_container tr) ∷ [];
      volumes = record { name = "workspace"; source = empty_dir } ∷ ca_volumes;
    }
