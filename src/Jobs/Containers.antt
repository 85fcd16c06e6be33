-- ===== src/Jobs/Containers.antt =====
-- pkg/executor/job_builder.go: the containers of a Job.
use software_distribution_pl.Prelude.{
  String, string_eq, ◌==◌, not, none, some, List, [], ◌∷◌, ◌++◌ as join, Map, if◌then◌else◌,
}
use software_distribution_pl.Api.Job.{EnvVar, Container}
use software_distribution_pl.Api.Pipeline.{Param, RepoSource, ReleaseSpec, ReleaseSourceType}
use software_distribution_pl.Api.Task.{TaskRun}
use software_distribution_pl.Jobs.Names.{sanitize_release_name}
use software_distribution_pl.Jobs.Defaults.{
  workspace_mount_path, JobBuilder, first_non_empty, join_comma, var, params_to_env, plain,
  apply_privileged, consume_fetch_script, main_command, main_args, flag, set_flags,
}

-- The namespace that the unit is released to.
abbrev pub release_namespace : TaskRun → ReleaseSpec → String
release_namespace tr spec =
    if spec.target_namespace == "" then tr.spec.namespace else spec.target_namespace

module _ (b : JobBuilder) where
  unfoldable pub checkout_container : RepoSource → Container
  checkout_container repo =
      record (plain "checkout" b.git_image (
        "sh" ∷ "-c"
        ∷ "git clone \"$REPO_URL\" \"$WORKSPACE\" && cd \"$WORKSPACE\" && git checkout \"$REPO_REF\""
        ∷ [])) {
          env =
              var "REPO_URL" repo.url
              ∷ var "REPO_REF" repo.ref
              ∷ var "WORKSPACE" workspace_mount_path
              ∷ [];
          env_from = if not (repo.secret_ref == "") then repo.secret_ref ∷ [] else [];
        }

  -- The variables of the container that fetches artifacts: before, for and behind the params.
  abbrev pub consume_start : List String → List EnvVar
  consume_start consumes =
      var "ARTIFACT_KEYS" (join_comma consumes)
      ∷ var "SDP_ARTIFACT_DIR" workspace_mount_path
      ∷ var "SDP_HUB_BASE_URL" b.hub_base_url
      ∷ []

  abbrev pub consume_token : List EnvVar
  consume_token =
      if not (b.hub_api_token == "") then var "SDP_HUB_TOKEN" b.hub_api_token ∷ [] else []

  abbrev pub consume_auth : List EnvVar
  consume_auth =
      var "AUTH_HEADER"
        (if not (b.hub_api_token == "") then "-H \"Authorization: Bearer $SDP_HUB_TOKEN\"" else "")
      ∷ []

  unfoldable pub consume_container : List String → List Param → Container
  unfolding params_to_env
  consume_container consumes params =
      record (plain "fetch-artifacts" b.artifact_image ("sh" ∷ "-c" ∷ consume_fetch_script ∷ [])) {
        env =
            join (consume_start consumes)
              (join consume_token (join (params_to_env params) consume_auth));
      }

  unfoldable pub main_container : TaskRun → Container
  unfolding params_to_env apply_privileged
  main_container tr =
      let start =
        var "SDP_PIPELINE_RUN" tr.spec.pipeline_run_ref
        ∷ var "SDP_TASK_NAME" tr.spec.task_name
        ∷ var "SDP_ARTIFACT_DIR" workspace_mount_path
        ∷ var "SDP_HUB_BASE_URL" b.hub_base_url
        ∷ [] in
      apply_privileged
        (record (plain "main" tr.spec.image (main_command tr)) {
          args = main_args tr;
          env = join (join start tr.spec.env) (params_to_env tr.spec.params);
          resources = tr.spec.resources;
          working_dir = workspace_mount_path;
        })
        tr.spec.privileged

  unfoldable pub missing_release : Container
  missing_release =
      record (plain "release" b.helm_image
        ("sh" ∷ "-c" ∷ "echo 'release task missing ReleaseSpec' >&2; exit 1" ∷ [])) {
          working_dir = workspace_mount_path;
        }

  unfoldable pub manifest_container : TaskRun → ReleaseSpec → (ns : String) → Container
  unfolding params_to_env apply_privileged
  manifest_container tr spec ns =
      apply_privileged
        (record (plain "release" (first_non_empty (tr.spec.image ∷ b.kubectl_image ∷ [])) (
          "sh" ∷ "-c"
          ∷ "printf '%s' \"$SDP_MANIFEST\" | kubectl apply -f - --namespace \"$SDP_RELEASE_NS\""
          ∷ [])) {
            env =
                var "SDP_MANIFEST" (elim spec.manifest [ none ↦ "" | some m ↦ m.content ])
                ∷ var "SDP_RELEASE_NS" ns
                ∷ params_to_env tr.spec.params;
            working_dir = workspace_mount_path;
          })
        tr.spec.privileged

  module _ (visit : Map String → Map String) where
    unfoldable pub helm_command : TaskRun → ReleaseSpec → (ns : String) → List String
    helm_command tr spec ns =
        let chart : String = elim spec.chart [ none ↦ "" | some c ↦ c.name ] in
        let options : List String = elim spec.chart [
          | none ↦ []
          | some c ↦ join (flag "--repo" c.repo_url) (flag "--version" c.version)
        ] in
        join
          ("helm" ∷ "upgrade" ∷ "--install" ∷ sanitize_release_name tr.spec.task_name ∷ chart ∷ [])
          (join options (join (flag "--namespace" ns) (set_flags (visit spec.values))))

    unfoldable pub chart_container : TaskRun → ReleaseSpec → (ns : String) → Container
    unfolding helm_command apply_privileged
    chart_container tr spec ns =
        apply_privileged
          (record (plain "release" (first_non_empty (tr.spec.image ∷ b.helm_image ∷ []))
            (helm_command tr spec ns)) { working_dir = workspace_mount_path })
          tr.spec.privileged

    -- The switch over the source of the software unit.
    unfoldable pub source_container :
        TaskRun → ReleaseSpec → (ns : String) → ReleaseSourceType → Container
    unfolding manifest_container chart_container
    source_container tr spec ns ReleaseSourceType.manifest = manifest_container tr spec ns
    source_container tr spec ns ReleaseSourceType.chart = chart_container tr spec ns

    unfoldable pub release_container : TaskRun → Container
    unfolding missing_release source_container
    release_container tr = elim tr.spec.release_spec [
      | none ↦ missing_release
      | some spec ↦ source_container tr spec (release_namespace tr spec) spec.source
    ]
