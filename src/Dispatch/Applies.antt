-- ===== src/Dispatch/Applies.antt =====
-- internal/dispatch/apply_handler.go: what the apply handler asks of the cluster.
use software_distribution_pl.Prelude.{
  String, string_eq, ◌==◌, List, some, ◌≡◌, refl, ◌≢◌, eq_iff, arith, if◌then◌else◌, Bool-cases,
  inl, inr, insert, lookup,
}
use software_distribution_pl.Api.Meta.{ObjectKey}
use software_distribution_pl.Api.Pipeline.{PipelineRun, PipelineRunPhase}
use software_distribution_pl.Api.Payloads.{ApplyPipelineRunPayload}
use software_distribution_pl.Kube.{
  Cluster, Trace, Call, Result, ok, err, api, invalid, not_found, already_exists, other, M,
  create_namespace, create_run, unless_exists, emit,
}
use software_distribution_pl.Kube.Writes.{
  Only, pure-Only, fail-Only, emit-Only, unless_exists-Only, >>-Only, if-Only,
}
use software_distribution_pl.Dispatch.{
  requested_run, create_if_gone, ensure_namespace, handle_apply, drop_run,
}
use software_distribution_pl.Dispatch.Snapshot.{Proj, snapshot_spec}

-- The namespace of a run that names none.
abbrev pub namespace_of : ApplyPipelineRunPayload → String
namespace_of p = if p.namespace == "" then "sdp-run" else p.namespace

-- The calls of an apply: the namespace of the run, and the run with the spec of the payload, marked with the
-- target and with a snapshot, and not started.
pub data Applies (target snapshot : String) (p : ApplyPipelineRunPayload) : Call → Type 0 where
  names : p.name ≢ "" → Applies target snapshot p (create_namespace (namespace_of p))
  runs :
      (pr : PipelineRun)
      → p.name ≢ ""
      → pr.meta.name ≡ p.name
      → pr.meta.namespace ≡ namespace_of p
      → pr.spec ≡ p.spec
      → pr.status.phase ≡ PipelineRunPhase.unset
      → lookup "sdp.io/target" pr.meta.labels ≡ some target
      → lookup "sdp.io/target" pr.meta.annotations ≡ some target
      → lookup "sdp.io/spec-snapshot" pr.meta.annotations ≡ some snapshot
      → Applies target snapshot p (create_run pr)

module _ (k : Cluster) where
  create_if_gone-Only :
      {Q : Call → Type 0} (r : Result (Unit {0})) {m : M (Unit {0})}
      → Only Q m
      → Only Q (create_if_gone k r m)
  unfolding create_if_gone
  create_if_gone-Only (ok found) h = pure-Only tt
  create_if_gone-Only (err (api not_found)) h = h
  create_if_gone-Only (err (api already_exists)) h = fail-Only _
  create_if_gone-Only (err (api other)) h = fail-Only _
  create_if_gone-Only (err (invalid s)) h = fail-Only _

  look-Only :
      {Q : Call → Type 0} (get : Trace → Result (Unit {0})) {m : M (Unit {0})}
      → Only Q m
      → Only Q (λ tr. create_if_gone k (get tr) m tr)
  look-Only get h = record { adds = λ tr. (create_if_gone-Only (get tr) h).adds tr }

  requested_run-Applies :
      (digest : List Proj → String) (target : String) (p : ApplyPipelineRunPayload)
      → p.name ≢ ""
      → Applies target
          (snapshot_spec digest p.spec.tasks)
          p
          (create_run (requested_run k digest target p))
  unfolding requested_run insert lookup
  requested_run-Applies digest target p n = elim (Bool-cases (p.publish_version == "")) [
    | inl e ↦ runs _ n refl refl refl refl refl (rw e refl) (rw e refl)
    | inr e ↦ runs _ n refl refl refl refl refl (rw e refl) (rw e refl)
  ]

  -- Whatever the cluster answers, an apply asks nothing of it if the payload has no name;
  -- otherwise all that it asks is the namespace of the payload, sdp-run if that is empty, and a
  -- run in this namespace that is not started, has the name and the spec of the payload, is
  -- labelled and marked with the target and is marked with the snapshot of the payload's tasks.
  pub handle_apply-Only :
      (digest : List Proj → String) (target : String) (p : ApplyPipelineRunPayload)
      → Only (Applies target (snapshot_spec digest p.spec.tasks) p) (handle_apply k digest target p)
  unfolding handle_apply ensure_namespace requested_run
  handle_apply-Only digest target p =
      let pr = requested_run k digest target p in
      let key : ObjectKey = record { namespace = pr.meta.namespace; name = pr.meta.name } in
      if-Only (p.name == "") (λ _. fail-Only _)
        (λ e.
          let named : p.name ≢ "" = λ h. ground (arith, e, eq_iff p.name "") in
          >>-Only
            (look-Only (λ tr. k.get_namespace tr (namespace_of p))
              (unless_exists-Only (emit-Only k (create_namespace (namespace_of p)) (names named))))
            (look-Only (λ tr. drop_run k (k.get_run tr key))
              {m = unless_exists (emit k (create_run pr))}
              (unless_exists-Only
                (emit-Only k (create_run pr) (requested_run-Applies digest target p named)))))
