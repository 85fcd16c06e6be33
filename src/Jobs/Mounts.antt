-- ===== src/Jobs/Mounts.antt =====
-- The volumes of a Job and what its containers mount of them.
use software_distribution_pl.Prelude.{
  String, string_eq, ◌==◌, ◌≡◌, refl, sym, subst, Bool, true, false, ◌||◌, Bool-cases, Option-cases,
  inl, inr, Option, none, some, List, [], ◌∷◌, ◌++◌ as join, map, Map, All, Elem, if◌then◌else◌,
  arith,
}
use software_distribution_pl.Api.Job.{VolumeMount, Volume, Container}
use software_distribution_pl.Api.Pipeline.{Param, RepoSource, ReleaseSpec, ReleaseSourceType}
use software_distribution_pl.Api.Task.{TaskRun}
use software_distribution_pl.Jobs.Defaults.{JobBuilder, apply_privileged, workspace_mount}
use software_distribution_pl.Jobs.Containers.{
  main_container, consume_container, release_container, release_namespace, source_container,
  manifest_container, chart_container, missing_release, checkout_container,
}
use software_distribution_pl.Jobs.{
  build, task_container, trust_hub, trust_hub_init, is_plain_release, init_containers, checkout_of,
  consume_of, with_ca, ca_mount, ca_volumes,
}
use software_distribution_pl.Jobs.Params.{all_containers}

-- What a container mounts: the workspace, and the CA unless there is none or the container does not call the hub.
abbrev pub expected_mounts : JobBuilder → String → List VolumeMount
expected_mounts b name =
    workspace_mount ∷ (if b.hub_ca_bundle == "" || name == "checkout" then [] else ca_mount ∷ [])

abbrev pub IsMounted : JobBuilder → Container → Type 0
IsMounted b c = c.volume_mounts ≡ expected_mounts b c.name

-- A container before the CA is mounted that calls the hub.
abbrev IsCaller : Container → Type 0
IsCaller c = (c.volume_mounts ≡ workspace_mount ∷ []) × ((c.name == "checkout") ≡ false)

apply_privileged-IsCaller :
    (c : Container) (p : Bool) → IsCaller c → IsCaller (apply_privileged c p)
unfolding apply_privileged
apply_privileged-IsCaller c true h = h
apply_privileged-IsCaller c false h = h

trust_hub-IsMounted : (b : JobBuilder) (c : Container) → IsCaller c → IsMounted b (trust_hub b c)
unfolding trust_hub with_ca
trust_hub-IsMounted b c h = elim (Bool-cases (b.hub_ca_bundle == "")) [
  | inl e ↦ rw e h.0
  | inr e ↦ rw e (rw h.0 (rw h.1 refl))
]

module _ (b : JobBuilder) (visit : Map String → Map String) where
  source-IsCaller :
      (tr : TaskRun) (spec : ReleaseSpec) (ns : String) (s : ReleaseSourceType)
      → IsCaller (source_container b visit tr spec ns s)
  unfolding source_container manifest_container chart_container
  source-IsCaller tr spec ns ReleaseSourceType.chart =
      apply_privileged-IsCaller _ tr.spec.privileged (refl, refl)
  source-IsCaller tr spec ns ReleaseSourceType.manifest =
      apply_privileged-IsCaller _ tr.spec.privileged (refl, refl)

  release-IsCaller : (tr : TaskRun) → IsCaller (release_container b visit tr)
  unfolding release_container missing_release
  release-IsCaller tr = elim (Option-cases tr.spec.release_spec) [
    | inl e ↦ rw e (refl, refl)
    | inr (spec, e) ↦ rw e (source-IsCaller tr spec (release_namespace tr spec) spec.source)
  ]

  task-IsCaller : (tr : TaskRun) → IsCaller (task_container b visit tr)
  unfolding task_container main_container
  task-IsCaller tr = elim (Bool-cases (is_plain_release tr)) [
    | inl e ↦ rw e (release-IsCaller tr)
    | inr e ↦ rw e (apply_privileged-IsCaller _ tr.spec.privileged (refl, refl))
  ]

  consume_of-IsMounted :
      (keys : List String) (ps : List Param) (rest : List Container)
      → All (IsMounted b) rest
      → All (IsMounted b) (join (map (trust_hub_init b) (consume_of b keys ps)) rest)
  unfolding consume_of trust_hub_init consume_container
  consume_of-IsMounted [] ps rest h = h
  consume_of-IsMounted (key ∷ keys) ps rest h =
      (trust_hub-IsMounted b (consume_container b (key ∷ keys) ps) (refl, refl), h)

  checkout_of-IsMounted :
      (repo : Option RepoSource) (cs rest : List Container)
      → All (IsMounted b) (join (map (trust_hub_init b) cs) rest)
      → All (IsMounted b) (join (map (trust_hub_init b) (join (checkout_of b repo) cs)) rest)
  unfolding checkout_of trust_hub_init checkout_container
  checkout_of-IsMounted none cs rest h = h
  checkout_of-IsMounted (some repo) cs rest h = (ground arith, h)

  build-IsMounted : (tr : TaskRun) → All (IsMounted b) (all_containers (build b visit tr))
  unfolding build init_containers
  build-IsMounted tr =
      checkout_of-IsMounted tr.spec.repo (consume_of b tr.spec.consumes tr.spec.params) _ (
        consume_of-IsMounted tr.spec.consumes tr.spec.params _
          (trust_hub-IsMounted b (task_container b visit tr) (task-IsCaller tr), tt))

  -- The mount names a volume of the Job.
  abbrev pub IsBacked : List Volume → VolumeMount → Type 0
  IsBacked volumes m = Elem m.name (map (λ (v : Volume). v.name) volumes)

  ca_mount-IsBacked :
      (tr : TaskRun)
      → (b.hub_ca_bundle == "") ≡ false
      → IsBacked (build b visit tr).volumes ca_mount
  unfolding build ca_volumes
  ca_mount-IsBacked tr e = rw (e, ca_volumes) (inr (inl refl))

  expected_mounts-IsBacked :
      (tr : TaskRun) (name : String)
      → All (IsBacked (build b visit tr).volumes) (expected_mounts b name)
  unfolding build ca_volumes
  expected_mounts-IsBacked tr name = elim (Bool-cases (b.hub_ca_bundle == "")) [
    | inl e ↦ rw e (inl refl, tt)
    | inr e ↦ rw e (elim (Bool-cases (name == "checkout")) [
      | inl n ↦ rw n (inl refl, tt)
      | inr n ↦ rw n (inl refl, (ca_mount-IsBacked tr e, tt))
    ])
  ]

  abbrev pub IsServed : TaskRun → Container → Type 0
  IsServed tr c = IsMounted b c × All (IsBacked (build b visit tr).volumes) c.volume_mounts

  All-IsServed : (tr : TaskRun) (cs : List Container) → All (IsMounted b) cs → All (IsServed tr) cs
  All-IsServed tr [] h = tt
  All-IsServed tr (c ∷ cs) h = (
    (
      h.0,
      subst (All (IsBacked (build b visit tr).volumes)) (sym h.0)
          (expected_mounts-IsBacked tr c.name),
    ),
    All-IsServed tr cs h.1,
  )

  -- Every container of a Job mounts the workspace, and the hub CA exactly when there is a CA
  -- bundle and the container is not the checkout, and every mount names a volume of the Job.
  pub build-IsServed : (tr : TaskRun) → All (IsServed tr) (all_containers (build b visit tr))
  build-IsServed tr = All-IsServed tr (all_containers (build b visit tr)) (build-IsMounted tr)
