-- ===== src/Jobs/Params.antt =====
-- What the params of a TaskRun cannot change in the containers of its Job.
use mathlib.Core.List.{map-append}
use software_distribution_pl.Prelude.{
  String, string_eq, ◌≡◌, refl, sym, ap, ap₂, ◌∙◌, Bool-cases, Option-cases, inl, inr, Option, none,
  some, List, [], ◌∷◌, ◌++◌ as join, map, Map,
}
use software_distribution_pl.Api.Job.{EnvVar, Container, Job}
use software_distribution_pl.Api.Pipeline.{Param, RepoSource, ReleaseSpec, ReleaseSourceType}
use software_distribution_pl.Api.Task.{TaskRun}
use software_distribution_pl.Jobs.Protected.{IsProtected, is_admissible-protected}
use software_distribution_pl.Jobs.Defaults.{JobBuilder, params_to_env}
use software_distribution_pl.Jobs.Containers.{
  main_container, consume_container, consume_start, consume_token, consume_auth, release_container,
  source_container, release_namespace, checkout_container,
}
use software_distribution_pl.Jobs.{
  build, task_container, trust_hub, trust_hub_init, is_plain_release, init_containers, checkout_of,
  consume_of,
}
use software_distribution_pl.Jobs.Env.{
  or_else, or_else-none, effective, effective-join, params_add_nothing, without_params, platform,
  apply_privileged-env, main_container_env, from_ca, trust_hub-effective,
}

abbrev pub all_containers : Job → List Container
all_containers job = join job.init_containers job.containers

-- The value that each of the containers sees.
abbrev pub visible : String → List Container → List (Option String)
visible query = map (λ (c : Container). effective query c.env)

module _ (b : JobBuilder) (visit : Map String → Map String) (query : String)
    (off_limits : IsProtected query) where
  abbrev IsSame : Container → Container → Type 0
  IsSame c d = effective query c.env ≡ effective query d.env

  params_last :
      (xs : List EnvVar) (ps : List Param)
      → effective query (join xs (params_to_env ps)) ≡ effective query xs
  params_last xs ps =
      rw (effective-join query xs (params_to_env ps))
        (rw (params_add_nothing query ps (is_admissible-protected query off_limits)) refl)

  params_inside :
      (xs ys : List EnvVar) (ps : List Param)
      → effective query (join xs (join (params_to_env ps) ys)) ≡ effective query (join xs ys)
  params_inside xs ys ps = rw (effective-join query xs (join (params_to_env ps) ys)) (
      rw (effective-join query (params_to_env ps) ys) (
        rw (params_add_nothing query ps (is_admissible-protected query off_limits))
          (rw (or_else-none (effective query ys)) (sym (effective-join query xs ys)))))

  trust_hub-IsSame : (c d : Container) → IsSame c d → IsSame (trust_hub b c) (trust_hub b d)
  trust_hub-IsSame c d e =
      trust_hub-effective b c query
      ∙ ap (or_else (from_ca b query)) e
      ∙ sym (trust_hub-effective b d query)

  join-IsSame :
      (xs ys zs : List EnvVar)
      → effective query ys ≡ effective query zs
      → effective query (join xs ys) ≡ effective query (join xs zs)
  join-IsSame xs ys zs e =
      effective-join query xs ys
      ∙ ap (λ o. or_else o (effective query xs)) e
      ∙ sym (effective-join query xs zs)

  main-IsSame : (tr : TaskRun) → IsSame (main_container b tr) (main_container b (without_params tr))
  main-IsSame tr =
      ap (effective query) (main_container_env b tr)
      ∙ params_last (join (platform b tr) tr.spec.env) tr.spec.params
      ∙ sym (params_last (join (platform b tr) tr.spec.env) [])
      ∙ sym (ap (effective query) (main_container_env b (without_params tr)))

  consume-IsSame :
      (keys : List String) (ps : List Param)
      → IsSame (consume_container b keys ps) (consume_container b keys [])
  unfolding consume_container
  consume-IsSame keys ps = join-IsSame (consume_start b keys) _ _ (
      params_inside (consume_token b) (consume_auth b) ps
      ∙ sym (params_inside (consume_token b) (consume_auth b) []))

  source-IsSame :
      (tr : TaskRun) (spec : ReleaseSpec) (ns : String) (s : ReleaseSourceType)
      → IsSame
          (source_container b visit tr spec ns s)
          (source_container b visit (without_params tr) spec ns s)
  unfolding source_container
  source-IsSame tr spec ns ReleaseSourceType.chart = refl
  source-IsSame tr spec ns ReleaseSourceType.manifest =
      ap (effective query) (apply_privileged-env _ tr.spec.privileged)
      ∙ params_last (_ ∷ _ ∷ []) tr.spec.params
      ∙ sym (params_last (_ ∷ _ ∷ []) [])
      ∙ sym (ap (effective query) (apply_privileged-env _ tr.spec.privileged))

  release-IsSame :
      (tr : TaskRun)
      → IsSame (release_container b visit tr) (release_container b visit (without_params tr))
  unfolding release_container
  release-IsSame tr = elim (Option-cases tr.spec.release_spec) [
    | inl e ↦ rw e refl
    | inr (spec, e) ↦ rw e (source-IsSame tr spec (release_namespace tr spec) spec.source)
  ]

  task-IsSame :
      (tr : TaskRun)
      → IsSame (task_container b visit tr) (task_container b visit (without_params tr))
  unfolding task_container
  task-IsSame tr = elim (Bool-cases (is_plain_release tr)) [
    | inl e ↦ rw e (release-IsSame tr)
    | inr e ↦ rw e (main-IsSame tr)
  ]

  consume_of-visible :
      (keys : List String) (ps : List Param)
      → visible query (map (trust_hub_init b) (consume_of b keys ps))
        ≡ visible query (map (trust_hub_init b) (consume_of b keys []))
  unfolding consume_of trust_hub_init consume_container
  consume_of-visible [] ps = refl
  consume_of-visible (key ∷ keys) ps =
      ap (λ o. o ∷ []) (trust_hub-IsSame _ _ (consume-IsSame (key ∷ keys) ps))

  behind_checkout :
      (repo : Option RepoSource) (cs ds es fs : List Container)
      → visible query (join (map (trust_hub_init b) cs) es)
        ≡ visible query (join (map (trust_hub_init b) ds) fs)
      → visible query (join (map (trust_hub_init b) (join (checkout_of b repo) cs)) es)
        ≡ visible query (join (map (trust_hub_init b) (join (checkout_of b repo) ds)) fs)
  unfolding checkout_of
  behind_checkout none cs ds es fs e = e
  behind_checkout (some repo) cs ds es fs e =
      ap (λ l. effective query (trust_hub_init b (checkout_container b repo)).env ∷ l) e

  -- Under one of the ten names that the platform keeps, and under a text that is not a letter or
  -- underscore followed by letters, digits and underscores, every container of a Job sees the
  -- value that it would see if the run had no params.
  pub build-visible :
      (tr : TaskRun)
      → visible query (all_containers (build b visit tr))
        ≡ visible query (all_containers (build b visit (without_params tr)))
  unfolding build init_containers
  build-visible tr =
      behind_checkout tr.spec.repo (consume_of b tr.spec.consumes tr.spec.params)
        (consume_of b tr.spec.consumes []) (trust_hub b (task_container b visit tr) ∷ [])
        (trust_hub b (task_container b visit (without_params tr)) ∷ [])
        (map-append (λ (c : Container). effective query c.env)
            (map (trust_hub_init b) (consume_of b tr.spec.consumes tr.spec.params)) _
          ∙ ap₂ join (consume_of-visible tr.spec.consumes tr.spec.params) (
              ap (λ o. o ∷ [])
                (trust_hub-IsSame (task_container b visit tr)
                  (task_container b visit (without_params tr)) (task-IsSame tr)))
          ∙ sym (
              map-append (λ (c : Container). effective query c.env)
                (map (trust_hub_init b) (consume_of b tr.spec.consumes [])) _))
