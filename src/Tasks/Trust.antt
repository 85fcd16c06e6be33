-- ===== src/Tasks/Trust.antt =====
-- The order of the hub's CA and of the Job that mounts it.
use software_distribution_pl.Prelude.{
  ◌≡◌, ◌⊎◌, refl, ap, ◌∙◌, if◌then◌else◌, pos, Bool, true, false, not, ◌||◌, inl, inr, String,
  string_eq, ◌==◌, Option, none, some, List, ◌∷◌, ◌++◌,
}
use software_distribution_pl.Api.Meta.{ObjectKey, Duration}
use software_distribution_pl.Api.Job.{Job}
use software_distribution_pl.Api.Task.{TaskRun}
use software_distribution_pl.Kube.{
  Cluster, Trace, Call, Result, ok, err, api, invalid, not_found, already_exists, other, ApiError,
  create_ca_map, update_ca_map, create_job, stream_logs, update_task_status, forgive_exists, answer,
  emit, pure, read, M, ◌>>=◌, ◌>>◌, unless_exists,
}
use software_distribution_pl.Kube.Writes.{
  Only, Adds, read-Only, pure-Only, fail-Only, emit-Only, if-Only, note-Only, >>=-Only, >>-Only,
  bind-Adds, none-Adds,
}
use software_distribution_pl.Jobs.{build}
use software_distribution_pl.Jobs.Defaults.{hub_ca_config_map_name}
use software_distribution_pl.Pipelines.Changes.{check}
use software_distribution_pl.Tasks.{
  TaskReconciler, maybe_stream_logs, save, ensure_ca_map, ensure_hub_ca_map, start_job,
}
use software_distribution_pl.Tasks.Changes.{begun}

pub check-Only : {Q : Call → Type 0} (e : Option ApiError) → Only Q (check e)
check-Only e = read-Only (λ tr. answer e)

module _ (k : Cluster) (r : TaskReconciler) {Q : Call → Type 0}
    (creates : (key : ObjectKey) (bundle : String) → Q (create_ca_map key bundle))
    (updates : (key : ObjectKey) (bundle : String) → Q (update_ca_map key bundle)) where
  ensure_ca_map-Only : (key : ObjectKey) (got : Result String) → Only Q (ensure_ca_map k r key got)
  unfolding ensure_ca_map
  ensure_ca_map-Only key (err (api not_found)) = emit-Only k _ (creates key _)
  ensure_ca_map-Only key (err (api already_exists)) = fail-Only _
  ensure_ca_map-Only key (err (api other)) = fail-Only _
  ensure_ca_map-Only key (err (invalid text)) = fail-Only _
  ensure_ca_map-Only key (ok got) =
      if-Only (got == r.job_builder.hub_ca_bundle) (λ _. pure-Only tt)
        (λ _. emit-Only k (update_ca_map key r.job_builder.hub_ca_bundle) (updates key _))

  pub ensure_hub_ca_map-Only : (ns : String) → Only Q (ensure_hub_ca_map k r ns)
  unfolding ensure_hub_ca_map
  ensure_hub_ca_map-Only ns =
      if-Only (r.job_builder.hub_ca_bundle == "") (λ _. pure-Only tt)
        (λ _. record { adds = λ tr. (ensure_ca_map-Only _ (k.get_ca_map tr _)).adds tr })

pub maybe_stream_logs-Only :
    (k : Cluster) (r : TaskReconciler) {Q : Call → Type 0}
    → ((key : String) → Q (stream_logs key))
    → (s : TaskRun) → Only Q (maybe_stream_logs k r s)
unfolding maybe_stream_logs
maybe_stream_logs-Only k r h s = record {
  adds = λ tr.
      (if-Only (not r.can_stream || s.status.job_ref == "" || k.is_streaming tr _)
          (λ _. pure-Only tt) (λ _. note-Only _ (h _))).adds
        tr;
}

-- The ConfigMap of the hub's CA in a namespace.
abbrev pub ca_key : String → ObjectKey
ca_key namespace = record { namespace = namespace; name = hub_ca_config_map_name }

module _ (k : Cluster) (r : TaskReconciler) (namespace : String) (tr : Trace) where
  -- How the ConfigMap comes to hold the bundle: none is wanted, it holds it, or a write that was accepted stores it.
  pub data IsReady (tr' : Trace) : Type 0 where
    unwanted : r.job_builder.hub_ca_bundle ≡ "" → tr' ≡ tr → IsReady tr'
    present :
        k.get_ca_map tr (ca_key namespace) ≡ ok r.job_builder.hub_ca_bundle → tr' ≡ tr → IsReady tr'
    stored :
        (c : Call)
        → (c ≡ create_ca_map (ca_key namespace) r.job_builder.hub_ca_bundle)
          ⊎ (c ≡ update_ca_map (ca_key namespace) r.job_builder.hub_ca_bundle)
        → k.write tr c ≡ none
        → tr' ≡ c ∷ tr
        → IsReady tr'

  answered : (w : Option ApiError) → answer w ≡ ok tt → w ≡ none
  answered none e = refl
  answered (some x) e = absurd (cc)

  update_unless :
      (same : Bool)
      → (same ≡ true → k.get_ca_map tr (ca_key namespace) ≡ ok r.job_builder.hub_ca_bundle)
      → (let m : M (Unit {0}) =
            if same
            then pure tt
            else emit k (update_ca_map (ca_key namespace) r.job_builder.hub_ca_bundle) in
          (m tr).1 ≡ ok tt → IsReady (m tr).0)
  update_unless true h e = present (h refl) refl
  update_unless false h e = stored _ (inr refl) (answered _ e) refl

  ensure_ca_map-IsReady :
      (got : Result String)
      → k.get_ca_map tr (ca_key namespace) ≡ got
      → (ensure_ca_map k r (ca_key namespace) got tr).1 ≡ ok tt
      → IsReady (ensure_ca_map k r (ca_key namespace) got tr).0
  unfolding ensure_ca_map
  ensure_ca_map-IsReady (err (api not_found)) g e = stored _ (inl refl) (answered _ e) refl
  ensure_ca_map-IsReady (err (api already_exists)) g e = absurd (cc)
  ensure_ca_map-IsReady (err (api other)) g e = absurd (cc)
  ensure_ca_map-IsReady (err (invalid text)) g e = absurd (cc)
  ensure_ca_map-IsReady (ok got) g e =
      update_unless (got == r.job_builder.hub_ca_bundle)
        (λ same. g ∙ ap ok ((string_eq.is_same_iff got r.job_builder.hub_ca_bundle).0 same)) e

  ensure_unless :
      (none_wanted : Bool)
      → (none_wanted ≡ true → r.job_builder.hub_ca_bundle ≡ "")
      → (let m : M (Unit {0}) = if none_wanted then pure tt else (λ x.
            ensure_ca_map k r (ca_key namespace) (k.get_ca_map x (ca_key namespace)) x) in
          (m tr).1 ≡ ok tt → IsReady (m tr).0)
  ensure_unless true h e = unwanted (h refl) refl
  ensure_unless false h e = ensure_ca_map-IsReady (k.get_ca_map tr (ca_key namespace)) refl e

  ensure_hub_ca_map-IsReady :
      (ensure_hub_ca_map k r namespace tr).1 ≡ ok tt
      → IsReady (ensure_hub_ca_map k r namespace tr).0
  unfolding ensure_hub_ca_map
  ensure_hub_ca_map-IsReady e =
      ensure_unless (r.job_builder.hub_ca_bundle == "")
        (λ h. (string_eq.is_same_iff r.job_builder.hub_ca_bundle "").0 h) e

abbrev pub is_create_job : Call → Bool
is_create_job (create_job job) = true
is_create_job _ = false

module _ (k : Cluster) (r : TaskReconciler) (t : TaskRun) where
  abbrev pub built : Job
  built = build r.job_builder r.visit_values t

  -- What follows the creation of the Job.
  abbrev stores : M Duration
  stores = read (λ tr. ok (k.now tr)) >>= λ now.
      maybe_stream_logs k r (begun t built.meta.name now)
      >> save k r (begun t built.meta.name now) (pos 0)

  stores-Only : Only (λ c. Unit) stores
  stores-Only = >>=-Only (read-Only (λ tr. ok (k.now tr))) (λ now.
      >>-Only (maybe_stream_logs-Only k r (λ key. tt) (begun t built.meta.name now)) (
        >>-Only (emit-Only k (update_task_status (begun t built.meta.name now)) tt)
          (pure-Only (pos 0))))

  -- The trace goes on behind the creation of the Job.
  abbrev pub CreatesAfter : Trace → Trace → Type 0
  CreatesAfter before after = (later : List Call) × (after ≡ later ++ (create_job built ∷ before))

  creates_job :
      (before : Trace)
      → CreatesAfter before ((unless_exists (emit k (create_job built)) >> stores) before).0
  creates_job before =
      let a =
        bind-Adds {Q = λ c. Unit} (forgive_exists (answer (k.write before (create_job built))))
          (λ _. stores) (create_job built ∷ before) (create_job built ∷ before) (none-Adds _)
          (λ _. stores-Only) in
      (a.added, a.trace)

  abbrev pub Ordered : Trace → Trace → Type 0
  Ordered tr after =
      Adds (λ c. is_create_job c ≡ false) tr after
      ⊎ ((before : Trace) × IsReady k r built.meta.namespace tr before × CreatesAfter before after)

  ensured :
      (tr : Trace) (res : Result (Unit {0}))
      → (ensure_hub_ca_map k r built.meta.namespace tr).1 ≡ res
      → (let before : Trace = (ensure_hub_ca_map k r built.meta.namespace tr).0 in
          let x : Trace × Result Duration = elim res [
            | ok done ↦ (unless_exists (emit k (create_job built)) >> stores) before
            | err e ↦ (before, err e)
          ] in
          Ordered tr x.0)
  ensured tr (ok done) e =
      inr (_, ensure_hub_ca_map-IsReady k r built.meta.namespace tr e, creates_job _)
  ensured tr (err x) e =
      inl
        ((ensure_hub_ca_map-Only k r (λ key b. refl) (λ key b. refl) built.meta.namespace).adds tr)

  checked :
      (tr : Trace) (w : Result (Unit {0}))
      → (let x : Trace × Result Duration = elim w [
        | ok done ↦
            (ensure_hub_ca_map k r built.meta.namespace
                >> (unless_exists (emit k (create_job built)) >> stores))
              tr
        | err e ↦ (tr, err e)
      ] in
          Ordered tr x.0)
  checked tr (ok done) = ensured tr (ensure_hub_ca_map k r built.meta.namespace tr).1 refl
  checked tr (err e) = inl (none-Adds tr)

  -- A reconcile that starts a task creates no Job, or it creates the Job that Build makes, and at
  -- the call before that the ConfigMap of the hub's CA is ready in the Job's namespace: no bundle
  -- is configured, the map holds it, or the write that stores it was accepted.
  pub start_job-Ordered : (tr : Trace) → Ordered tr (start_job k r t tr).0
  unfolding start_job
  start_job-Ordered tr = checked tr (answer (k.set_owner t.meta built.meta))
