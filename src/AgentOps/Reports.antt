-- ===== src/AgentOps/Reports.antt =====
-- What the hub is told of an operation.
use mathlib.Core.List.{append_assoc as list_append_assoc}
use software_distribution_pl.Prelude.{
  ℕ, String, string_eq, ◌==◌, ◌≡◌, refl, sym, ap, ◌∙◌, ◌⊎◌, inl, inr, Bool, true, false, not,
  Bool-cases, Option-cases, some, List, [], ◌∷◌, ◌++◌ as join, Map, if◌then◌else◌, arith,
}
use software_distribution_pl.Api.Job.{Job}
use software_distribution_pl.Api.Payloads.{
  AgentOpDispatchPayload, agent_op_status_running, agent_op_status_succeeded,
  agent_op_status_failed, agent_op_type_exec, agent_op_type_upgrade,
}
use software_distribution_pl.Kube.{not_found, already_exists, other}
use software_distribution_pl.AgentOps.Specs.{Handler, image, timeout, build_job_spec}
use software_distribution_pl.AgentOps.Drain.{
  Tick, JobRead, job_at, get_failed, verdict, drain_tick, watch_job,
}
use software_distribution_pl.AgentOps.{
  Effect, send_op_status, send_op_log, create_job, create_namespace, panic, Created, created,
  refused, Client, usable, invalid_config, not_built, World, report, fail, send_chunks, follow,
  after_create, retry_create, run_job, client_job, kubeconfig_job, execute,
}

-- The statuses that are reported, in order.
unfoldable pub statuses : List Effect → List String
statuses [] = []
statuses (send_op_status s ∷ es) = s.status ∷ statuses es
statuses (send_op_log _ ∷ es) = statuses es
statuses (create_job _ _ ∷ es) = statuses es
statuses (create_namespace _ ∷ es) = statuses es
statuses (panic ∷ es) = statuses es

abbrev pub IsFinal : String → Type 0
IsFinal s = (s ≡ agent_op_status_succeeded) ⊎ (s ≡ agent_op_status_failed)

verdict-IsFinal : (r : JobRead) (s m : String) → verdict r ≡ some (s, m) → IsFinal s
unfolding verdict
verdict-IsFinal (get_failed text) s m e = inr (cc)
verdict-IsFinal (job_at n cs) s m e = ground (arith, e)

watch_job-IsFinal :
    (limit : String) (ticks : List Tick) (offsets : Map ℕ)
    → IsFinal (watch_job limit ticks offsets).1
unfolding watch_job
watch_job-IsFinal limit [] offsets = inr refl
watch_job-IsFinal limit (t ∷ ts) offsets = elim (Option-cases (verdict t.job)) [
  | inl e ↦ rw (e, watch_job) (watch_job-IsFinal limit ts (drain_tick t offsets).1)
  | inr (v, e) ↦ rw (e, watch_job) (verdict-IsFinal t.job v.0 v.1 e)
]

statuses-join : (xs ys : List Effect) → statuses (join xs ys) ≡ join (statuses xs) (statuses ys)
unfolding statuses
statuses-join [] ys = refl
statuses-join (send_op_status s ∷ es) ys = ap (λ l. s.status ∷ l) (statuses-join es ys)
statuses-join (send_op_log _ ∷ es) ys = statuses-join es ys
statuses-join (create_job _ _ ∷ es) ys = statuses-join es ys
statuses-join (create_namespace _ ∷ es) ys = statuses-join es ys
statuses-join (panic ∷ es) ys = statuses-join es ys

module _ (w : World) (h : Handler) (p : AgentOpDispatchPayload) where
  -- The effects end in a report of a final status, and report nothing before.
  pub record Concludes (es : List Effect) : Type 0 where
    pub before : List Effect
    pub status : String
    pub message : String
    pub ends : es ≡ join before (report w h p status message ∷ [])
    pub is_silent : statuses before ≡ []
    pub is_final : IsFinal status

  fail-Concludes : (text : String) → Concludes (fail w h p text)
  unfolding statuses
  fail-Concludes text = record {
    before = [];
    status = agent_op_status_failed;
    message = text;
    ends = refl;
    is_silent = refl;
    is_final = inr refl;
  }

  after_silent : (xs es : List Effect) → statuses xs ≡ [] → Concludes es → Concludes (join xs es)
  after_silent xs es q c = record {
    before = join xs c.before;
    status = c.status;
    message = c.message;
    ends =
        ap (join xs) c.ends
        ∙ sym (list_append_assoc xs c.before (report w h p c.status c.message ∷ []));
    is_silent = statuses-join xs c.before ∙ rw (q, c.is_silent) refl;
    is_final = c.is_final;
  }

  if-Concludes :
      (b : Bool) {xs ys : List Effect}
      → Concludes xs
      → Concludes ys
      → Concludes (if b then xs else ys)
  if-Concludes true cx cy = cx
  if-Concludes false cx cy = cy

  send_chunks-silent : (chunks : List (String × String)) → statuses (send_chunks w h p chunks) ≡ []
  unfolding statuses
  send_chunks-silent [] = refl
  send_chunks-silent ((pod, chunk) ∷ rest) = elim (Bool-cases (chunk == "")) [
    | inl e ↦ rw e (send_chunks-silent rest)
    | inr e ↦ rw e (send_chunks-silent rest)
  ]

  follow-Concludes : (namespace name : String) → Concludes (follow w h p namespace name)
  unfolding follow statuses
  follow-Concludes namespace name =
      let limit = w.show_duration (timeout h) in
      record {
        before = send_chunks w h p (watch_job limit (w.ticks namespace name) []).0;
        status = (watch_job limit (w.ticks namespace name) []).1;
        message = (watch_job limit (w.ticks namespace name) []).2;
        ends = refl;
        is_silent = send_chunks-silent (watch_job limit (w.ticks namespace name) []).0;
        is_final = watch_job-IsFinal limit (w.ticks namespace name) [];
      }

  after_create-Concludes :
      (namespace : String) (answer : Created) → Concludes (after_create w h p namespace answer)
  unfolding after_create
  after_create-Concludes namespace (created name) = follow-Concludes namespace name
  after_create-Concludes namespace (refused e text) = fail-Concludes _

  retry_create-Concludes :
      (done : List Effect) (namespace : String) (job : Job) (answer : Created)
      → Concludes (retry_create w h p done namespace job answer)
  unfolding retry_create statuses
  retry_create-Concludes done namespace job (refused not_found text) =
      after_silent (create_namespace namespace ∷ create_job namespace job ∷ []) _ refl (
        after_create-Concludes namespace
          (w.create (join done (create_namespace namespace ∷ [])) namespace job))
  retry_create-Concludes done namespace job (refused already_exists text) =
      after_create-Concludes namespace (refused already_exists text)
  retry_create-Concludes done namespace job (refused other text) =
      after_create-Concludes namespace (refused other text)
  retry_create-Concludes done namespace job (created name) =
      after_create-Concludes namespace (created name)

  run_job-Concludes : (done : List Effect) → Concludes (run_job w h p done)
  unfolding run_job statuses
  run_job-Concludes done =
      after_silent (create_job (build_job_spec p (image h)).0 (build_job_spec p (image h)).1 ∷ []) _
        refl (retry_create-Concludes _ _ _ _)

  with_client : (done : List Effect) (c : Client) → Concludes (client_job w h p done c)
  unfolding client_job
  with_client done usable = run_job-Concludes done
  with_client done (invalid_config text) = fail-Concludes _
  with_client done (not_built text) = fail-Concludes _

  execute_job-Concludes :
      (done : List Effect) (config : List ℕ) → Concludes (kubeconfig_job w h p done config)
  unfolding kubeconfig_job
  execute_job-Concludes done [] =
      if-Concludes h.has_clientset (run_job-Concludes done) (fail-Concludes _)
  execute_job-Concludes done (b ∷ bs) = with_client done (w.client_for (b ∷ bs))

  -- An operation that is not an upgrade reports Running first and reports a final status,
  -- succeeded or failed, as its last effect, with no report between the two.
  pub execute-Concludes :
      (p.op_type == agent_op_type_upgrade) ≡ false
      → (rest : List Effect) × (execute w h p ≡ report w h p agent_op_status_running "" ∷ rest)
        × Concludes rest
  unfolding execute
  execute-Concludes e = (
    _,
    refl,
    rw e (
        if-Concludes (not (p.op_type == agent_op_type_exec)) (fail-Concludes _)
          (execute_job-Concludes _ p.kubeconfig)),
  )
