-- ===== src/Jobs/Env.antt =====
-- The values that a container of a Job sees: of two variables with one name, the later one counts.
use text.Mathlib.TextEquality.{eq_iff}
use software_distribution_pl.Prelude.{
  String, string_eq, ◌==◌, ◌≡◌, refl, sym, ap, ◌∙◌, Bool, true, false, Bool-cases, inl, inr, Option,
  none, some, List, [], ◌∷◌, ◌++◌ as join, map, Map, if◌then◌else◌, arith,
}
use software_distribution_pl.Api.Job.{EnvVar, Container}
use software_distribution_pl.Api.Pipeline.{Param}
use software_distribution_pl.Api.Task.{TaskRun}
use software_distribution_pl.Jobs.Names.{is_admissible}
use software_distribution_pl.Jobs.Defaults.{
  JobBuilder, apply_privileged, params_to_env, var, hub_ca_cert_file, workspace_mount_path,
}
use software_distribution_pl.Jobs.Containers.{main_container}
use software_distribution_pl.Jobs.{build, task_container, trust_hub, is_plain_release, with_ca}

abbrev pub or_else {ℓ} : {A : Type ℓ} → Option A → Option A → Option A
or_else none o = o
or_else (some a) o = some a

or_else_assoc {ℓ} :
    {A : Type ℓ} (a b c : Option A) → or_else (or_else a b) c ≡ or_else a (or_else b c)
or_else_assoc none b c = refl
or_else_assoc (some a) b c = refl

pub or_else-none {ℓ} : {A : Type ℓ} (a : Option A) → or_else a none ≡ a
or_else-none none = refl
or_else-none (some a) = refl

abbrev pub named : String → String → String → Option String
named query name value = if name == query then some value else none

unfoldable pub effective : String → List EnvVar → Option String
effective query [] = none
effective query (e ∷ es) = or_else (effective query es) (named query e.name e.value)

-- The value of the last param with the name.
unfoldable pub last_param : String → List Param → Option String
last_param query [] = none
last_param query (p ∷ ps) = or_else (last_param query ps) (named query p.name p.value)

-- What the params give a container under a name.
abbrev pub from_params : String → List Param → Option String
from_params query ps = if is_admissible query then last_param query ps else none

pub effective-join :
    (query : String) (xs ys : List EnvVar)
    → effective query (join xs ys) ≡ or_else (effective query ys) (effective query xs)
unfolding effective
effective-join query [] ys = sym (or_else-none (effective query ys))
effective-join query (x ∷ xs) ys =
    rw (effective-join query xs ys) (or_else_assoc (effective query ys) (effective query xs) _)

effective-params_to_env :
    (query : String) (ps : List Param) → effective query (params_to_env ps) ≡ from_params query ps
unfolding effective last_param params_to_env
effective-params_to_env query [] = ground arith
effective-params_to_env query (p ∷ ps) = ground (
  arith,
  effective-params_to_env query ps,
  eq_iff p.name query,
  λ (h : p.name ≡ query). ap is_admissible h,
)

-- A name that no param may set.
pub params_add_nothing :
    (query : String) (ps : List Param)
    → is_admissible query ≡ false
    → effective query (params_to_env ps) ≡ none
params_add_nothing query ps h = rw (effective-params_to_env query ps) (rw h refl)

abbrev pub without_params : TaskRun → TaskRun
without_params tr = record tr { spec = record (tr.spec) { params = [] } }

abbrev pub platform : JobBuilder → TaskRun → List EnvVar
platform b tr =
    var "SDP_PIPELINE_RUN" tr.spec.pipeline_run_ref
    ∷ var "SDP_TASK_NAME" tr.spec.task_name
    ∷ var "SDP_ARTIFACT_DIR" workspace_mount_path
    ∷ var "SDP_HUB_BASE_URL" b.hub_base_url
    ∷ []

pub apply_privileged-env : (c : Container) (p : Bool) → (apply_privileged c p).env ≡ c.env
unfolding apply_privileged
apply_privileged-env c true = refl
apply_privileged-env c false = refl

pub main_container_env :
    (b : JobBuilder) (tr : TaskRun)
    → (main_container b tr).env
      ≡ join (join (platform b tr) tr.spec.env) (params_to_env tr.spec.params)
unfolding main_container
main_container_env b tr = apply_privileged-env _ tr.spec.privileged

main_container-effective :
    (b : JobBuilder) (tr : TaskRun) (query : String)
    → effective query (main_container b tr).env
      ≡ or_else
          (from_params query tr.spec.params)
          (or_else (effective query tr.spec.env) (effective query (platform b tr)))
main_container-effective b tr query = rw (main_container_env b tr) (
    rw (effective-join query (join (platform b tr) tr.spec.env) (params_to_env tr.spec.params)) (
      rw (effective-join query (platform b tr) tr.spec.env)
        (rw (effective-params_to_env query tr.spec.params) refl)))

-- The variable that the CA adds.
abbrev pub from_ca : JobBuilder → String → Option String
from_ca b query =
    if b.hub_ca_bundle == "" then none else named query "SSL_CERT_FILE" hub_ca_cert_file

pub trust_hub-effective :
    (b : JobBuilder) (c : Container) (query : String)
    → effective query (trust_hub b c).env ≡ or_else (from_ca b query) (effective query c.env)
unfolding trust_hub with_ca effective
trust_hub-effective b c query = elim (Bool-cases (b.hub_ca_bundle == "")) [
  | inl e ↦ rw e refl
  | inr e ↦ rw e (effective-join query c.env (var "SSL_CERT_FILE" hub_ca_cert_file ∷ []))
]

-- In the main container of a Job that is not a plain release, a variable has the value of the hub
-- CA if that sets it, else that of the last param with its name if the name is admissible, else
-- that of the last entry of the environment of the task, else that of the platform.
pub build-effective :
    (b : JobBuilder) (visit : Map String → Map String) (tr : TaskRun) (query : String)
    → is_plain_release tr ≡ false
    → map (λ (c : Container). effective query c.env) (build b visit tr).containers
      ≡ or_else (from_ca b query) (
          or_else
            (from_params query tr.spec.params)
            (or_else (effective query tr.spec.env) (effective query (platform b tr))))
        ∷ []
unfolding build task_container
build-effective b visit tr query h = rw h (
    ap (λ o. o ∷ [])
      (trust_hub-effective b (main_container b tr) query
        ∙ ap (or_else (from_ca b query)) (main_container-effective b tr query)))
