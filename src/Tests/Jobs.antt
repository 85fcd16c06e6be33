-- ===== src/Tests/Jobs.antt =====
-- The theorems on the Jobs of tasks at sample TaskRuns.
use software_distribution_pl.Prelude.{
  String, true, false, some, [], ◌∷◌, map, Map, All, all_chars, inl, ◌≡◌, ◌≤◌, refl,
}
use software_distribution_pl.Api.Job.{Container}
use software_distribution_pl.Api.Pipeline.{TaskRunPhase}
use software_distribution_pl.Api.Task.{TaskRun}
use software_distribution_pl.Pipelines.Changes.{build_task_run}
use software_distribution_pl.Jobs.{build}
use software_distribution_pl.Jobs.Defaults.{JobBuilder, new_job_builder}
use software_distribution_pl.Jobs.Names.{sanitize_release_name, is_admissible}
use software_distribution_pl.Jobs.Env.{
  effective, from_ca, from_params, platform, or_else, without_params, build-effective,
}
use software_distribution_pl.Jobs.Params.{all_containers, visible, build-visible}
use software_distribution_pl.Jobs.Mounts.{IsServed, build-IsServed}
use software_distribution_pl.Jobs.Releases.{
  is_release_char, size, ends_in_dash, sanitize_release_name-valid,
}
use software_distribution_pl.Tests.{compile, task_run}

-- A task that consumes an artifact, with a param that is passed on and one that is not.
unfoldable packaging : TaskRun
unfolding task_run
packaging =
    let t = task_run TaskRunPhase.unset compile in
    record t {
      spec = record (t.spec) {
        consumes = "app.jar" ∷ [];
        params =
            record { name = "VERSION"; value = "1.2" }
            ∷ record { name = "PATH"; value = "/tmp" }
            ∷ [];
      };
    }

abbrev builder : JobBuilder
builder = record new_job_builder { hub_base_url = "https://hub"; hub_ca_bundle = "PEM" }

abbrev in_order : Map String → Map String
in_order m = m

build-effective_example :
    map (λ (c : Container). effective "VERSION" c.env) (build builder in_order packaging).containers
    ≡ or_else (from_ca builder "VERSION") (
        or_else (from_params "VERSION" packaging.spec.params) (
          or_else
            (effective "VERSION" packaging.spec.env)
            (effective "VERSION" (platform builder packaging))))
      ∷ []
unfolding packaging task_run build_task_run
build-effective_example = build-effective builder in_order packaging "VERSION" refl

build-visible_example :
    visible "PATH" (all_containers (build builder in_order packaging))
    ≡ visible "PATH" (all_containers (build builder in_order (without_params packaging)))
build-visible_example = build-visible builder in_order "PATH" (inl (inl refl)) packaging

sees_params :
    visible "VERSION" (all_containers (build builder in_order packaging))
    ≡ some "1.2" ∷ some "1.2" ∷ []
unfolding build effective packaging task_run build_task_run is_admissible
sees_params = refl

build-IsServed_example :
    All (IsServed builder in_order packaging) (all_containers (build builder in_order packaging))
build-IsServed_example = build-IsServed builder in_order packaging

sanitize_release_name-valid_example :
    (all_chars is_release_char (sanitize_release_name "Deploy_API.v2") ≡ true)
    × (size (sanitize_release_name "Deploy_API.v2") ≤ 53)
    × (ends_in_dash (sanitize_release_name "Deploy_API.v2") ≡ false)
sanitize_release_name-valid_example = sanitize_release_name-valid "Deploy_API.v2"
