-- ===== src/AgentOps/Upgrades.antt =====
-- The operation that replaces the runner itself.
use Prim.Native.String.{len}
use software_distribution_pl.Prelude.{
  String, string_eq, ◌==◌, ltb, ◌≡◌, refl, ◌∙◌, inl, inr, Bool, true, false, not, ◌&&◌, Bool-cases,
  Option, none, some, List, [], ◌∷◌, any, if◌then◌else◌, arith,
}
use software_distribution_pl.Api.Job.{Job}
use software_distribution_pl.Api.Payloads.{
  AgentOpDispatchPayload, agent_op_type_upgrade, agent_op_stream_stdout,
}
use software_distribution_pl.AgentOps.Specs.{
  Handler, self_namespace, build_upgrade_job_spec, op_prefix,
}
use software_distribution_pl.AgentOps.{
  Effect, create_job, panic, Created, created, refused, World, fail, send_chunk, after_upgrade,
  run_upgrade, create_upgrade, probe, execute_upgrade, execute,
}

abbrev is_panic : Effect → Bool
is_panic panic = true
is_panic _ = false

abbrev pub panics : List Effect → Bool
panics = any is_panic

abbrev creates : List Effect → List Job
creates [] = []
creates (create_job ns job ∷ es) = job ∷ creates es
creates (_ ∷ es) = creates es

-- Whether the API server lists a Job of the operation.
abbrev pub in_flight : Option (List String) → Bool
in_flight (some (name ∷ _)) = true
in_flight _ = false

and_assoc : (x d e : Bool) → (x && (d && e)) ≡ (x && d && e)
and_assoc true d e = refl
and_assoc false d e = refl

module _ (w : World) (h : Handler) (p : AgentOpDispatchPayload) where
  -- The checks in front of the Job's creation are passed.
  abbrev pub is_clear : Bool
  is_clear =
      not h.self_upgrade_disabled
      && not (p.detail == "")
      && h.has_clientset
      && not (in_flight (w.jobs_of (self_namespace h w.namespace_file) p.op_id))

  guards :
      (disabled empty ready : Bool) (a b c : String) (es : List Effect)
      → panics (
          if disabled
          then fail w h p a
          else if empty
          then fail w h p b
          else if not ready
          then fail w h p c
          else es)
        ≡ (not disabled && not empty && ready && panics es)
  guards true empty ready a b c es = refl
  guards false true ready a b c es = refl
  guards false false true a b c es = refl
  guards false false false a b c es = refl

  send_chunk-panics : (stream chunk : String) → panics (send_chunk w h p stream chunk) ≡ false
  send_chunk-panics stream chunk = ground arith

  after_upgrade-panics : (answer : Created) → panics (after_upgrade w h p answer) ≡ false
  unfolding after_upgrade
  after_upgrade-panics (created name) = refl
  after_upgrade-panics (refused e text) = refl

  create_upgrade-panics :
      (done : List Effect) (namespace : String)
      → panics (create_upgrade w h p done namespace) ≡ ltb (len p.op_id) 8
  unfolding create_upgrade run_upgrade
  create_upgrade-panics done namespace = elim (Bool-cases (ltb (len p.op_id) 8)) [
    | inl e ↦ rw (e, build_upgrade_job_spec, op_prefix) refl
    | inr e ↦ rw (e, build_upgrade_job_spec, op_prefix) (after_upgrade-panics _)
  ]

  probed-panics :
      (done : List Effect) (namespace : String) (jobs : Option (List String))
      → panics (probe w h p done namespace jobs) ≡ (not (in_flight jobs) && ltb (len p.op_id) 8)
  unfolding probe
  probed-panics done namespace none = create_upgrade-panics done namespace
  probed-panics done namespace (some []) = create_upgrade-panics done namespace
  probed-panics done namespace (some (name ∷ names)) = send_chunk-panics agent_op_stream_stdout _

  -- An upgrade operation ends in a panic exactly when upgrades are enabled, a version and an in-
  -- cluster client are given, no Job of the operation is listed and its identifier has less than
  -- eight bytes.
  pub execute-panics :
      (p.op_type == agent_op_type_upgrade) ≡ true
      → panics (execute w h p) ≡ (is_clear && ltb (len p.op_id) 8)
  unfolding execute execute_upgrade
  execute-panics u = rw u (
      guards h.self_upgrade_disabled (p.detail == "") h.has_clientset _ _ _ _
      ∙ rw (probed-panics _ _ _) (
          and_assoc (not h.self_upgrade_disabled && not (p.detail == "") && h.has_clientset)
            (not (in_flight (w.jobs_of (self_namespace h w.namespace_file) p.op_id)))
            (ltb (len p.op_id) 8)))
