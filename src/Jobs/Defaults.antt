-- ===== src/Jobs/Defaults.antt =====
-- pkg/executor/job_builder.go: the builder, its constants and what its containers share.
use Prim.Native.String.{◌++◌}
use software_distribution_pl.Prelude.{
  String, string_eq, ◌==◌, Bool, true, false, not, none, some, List, [], ◌∷◌, Map, if◌then◌else◌,
}
use software_distribution_pl.Api.Job.{EnvVar, ResourceRequirements, VolumeMount, Container}
use software_distribution_pl.Api.Pipeline.{Param}
use software_distribution_pl.Api.Task.{TaskRun}
use software_distribution_pl.Jobs.Names.{is_admissible}

abbrev pub workspace_mount_path : String
workspace_mount_path = "/workspace"

abbrev pub default_git_image : String
default_git_image = "harbor.sdpworkflow.com/sdp/git:2.45.2"

abbrev pub default_artifact_image : String
default_artifact_image = "harbor.sdpworkflow.com/sdp/curl:8.8.0"

abbrev pub default_helm_image : String
default_helm_image = "harbor.sdpworkflow.com/sdp/helm:3.14.4"

abbrev pub default_kubectl_image : String
default_kubectl_image = "harbor.sdpworkflow.com/sdp/kubectl:1.30"

abbrev pub hub_ca_config_map_name : String
hub_ca_config_map_name = "sdp-hub-ca"

abbrev pub hub_ca_volume_name : String
hub_ca_volume_name = "hub-ca"

abbrev pub hub_ca_mount_path : String
hub_ca_mount_path = "/etc/sdp-hub-ca"

abbrev pub hub_ca_key : String
hub_ca_key = "ca.crt"

abbrev pub hub_ca_cert_file : String
hub_ca_cert_file = "/etc/sdp-hub-ca/ca.crt"

pub record JobBuilder : Type 0 where
  pub git_image : String
  pub artifact_image : String
  pub helm_image : String
  pub kubectl_image : String
  pub hub_base_url : String
  pub hub_api_token : String
  pub hub_ca_bundle : String

-- The fields that are not set are empty.
abbrev pub new_job_builder : JobBuilder
new_job_builder = record {
  git_image = default_git_image;
  artifact_image = default_artifact_image;
  helm_image = default_helm_image;
  kubectl_image = default_kubectl_image;
  hub_base_url = "";
  hub_api_token = "";
  hub_ca_bundle = "";
}

abbrev pub first_non_empty : List String → String
first_non_empty [] = ""
first_non_empty (v ∷ vals) = if not (v == "") then v else first_non_empty vals

-- The texts behind the first, each with a comma in front.
abbrev pub join_more : List String → String
join_more [] = ""
join_more (s ∷ ss) = "," ++ s ++ join_more ss

abbrev pub join_comma : List String → String
join_comma [] = ""
join_comma (s ∷ ss) = s ++ join_more ss

abbrev pub var : String → String → EnvVar
var name value = record { name = name; value = value }

unfoldable pub params_to_env : List Param → List EnvVar
params_to_env [] = []
params_to_env (p ∷ ps) =
    let rest = params_to_env ps in if is_admissible p.name then var p.name p.value ∷ rest else rest

abbrev pub workspace_mount : VolumeMount
workspace_mount = record {
  name = "workspace";
  mount_path = workspace_mount_path;
  read_only = false;
}

abbrev no_resources : ResourceRequirements
no_resources = record { limits = []; requests = [] }

-- A container with a name, an image and a command, and the zero value in every field but the mount.
abbrev pub plain : String → String → List String → Container
plain name image command = record {
  name = name;
  image = image;
  command = command;
  args = [];
  env = [];
  env_from = [];
  resources = no_resources;
  working_dir = "";
  volume_mounts = workspace_mount ∷ [];
  privileged = none;
}

unfoldable pub apply_privileged : Container → Bool → Container
apply_privileged c privileged = if not privileged then c else record c { privileged = some true }

abbrev pub consume_fetch_script : String
consume_fetch_script =
    "set -e\n" ++ "mkdir -p \"$SDP_ARTIFACT_DIR\"\n" ++ "OLDIFS=\"$IFS\"; IFS=','\n"
    ++ "for key in $ARTIFACT_KEYS; do\n" ++ "  IFS=\"$OLDIFS\"\n"
    ++ "  [ -n \"$key\" ] || continue\n" ++ "  if [ -n \"$SDP_HUB_TOKEN\" ]; then\n"
    ++ "    RESP=$(curl -sf -X POST \"$SDP_HUB_BASE_URL/api/v1/artifacts/storage-url\" \\\n"
    ++ "      -H \"Content-Type: application/json\" \\\n"
    ++ "      -H \"Authorization: Bearer $SDP_HUB_TOKEN\" \\\n"
    ++ "      -d \"{\\\"key\\\":\\\"$key\\\"}\")\n" ++ "  else\n"
    ++ "    RESP=$(curl -sf -X POST \"$SDP_HUB_BASE_URL/api/v1/artifacts/storage-url\" \\\n"
    ++ "      -H \"Content-Type: application/json\" \\\n"
    ++ "      -d \"{\\\"key\\\":\\\"$key\\\"}\")\n" ++ "  fi\n"
    ++ "  [ -n \"$RESP\" ] || { echo \"storage-url request failed for $key\" >&2; exit 1; }\n"
    ++ "  URL=$(printf '%s' \"$RESP\" | sed -n 's/.*\"url\":\"\\([^\"]*\\)\".*/\\1/p')\n"
    ++ "  [ -n \"$URL\" ] || { echo \"no url in response for $key: $RESP\" >&2; exit 1; }\n"
    ++ "  OUT=\"$SDP_ARTIFACT_DIR/$(basename \"$key\")\"\n"
    ++ "  curl -fsSL -o \"$OUT\" \"$URL\" || { echo \"download failed for $key\" >&2; exit 1; }\n"
    ++ "  echo \"fetched $key -> $OUT ($(wc -c < \"$OUT\") bytes)\"\n" ++ "done\n"

-- The main container runs the script if one is named, else the task's own command.
abbrev pub main_command : TaskRun → List String
main_command tr =
    if not (tr.spec.script_path == "") then "sh" ∷ tr.spec.script_path ∷ [] else tr.spec.command

abbrev pub main_args : TaskRun → List String
main_args tr = if not (tr.spec.script_path == "") then tr.spec.script_args else tr.spec.args

-- A flag and its value, unless the value is empty.
abbrev pub flag : String → String → List String
flag name value = if not (value == "") then name ∷ value ∷ [] else []

abbrev pub set_flags : Map String → List String
set_flags [] = []
set_flags ((k, v) ∷ rest) = "--set" ∷ (k ++ "=" ++ v) ∷ set_flags rest
