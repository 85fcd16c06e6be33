-- ===== src/AgentOps.antt =====
-- internal/agentops/handler.go: the operations that the hub asks of the runner itself. What the API
-- server answers is a parameter; what the handler does is the list of its effects, in order. The errors of
-- a send are only logged, so a send has no answer. An operation runs on its own goroutine.
pub mod Specs
pub mod Drain
pub mod Pods
pub mod Watch
pub mod Reports
pub mod Upgrades
use Prim.Native.String.{◌++◌}
use software_distribution_pl.Prelude.{
  ℕ, ℤ, pos, ltb_ℤ, String, string_eq, ◌==◌, Bool, not, ◌&&◌, Option, none, some, List, [], ◌∷◌,
  ◌++◌ as join, map, Map, if◌then◌else◌,
}
use software_distribution_pl.Api.Job.{Job}
use software_distribution_pl.Api.Meta.{Duration}
use software_distribution_pl.Api.Payloads.{
  AgentOpDispatchPayload, AgentOpStatusPayload, AgentOpLogPayload, agent_op_status_running,
  agent_op_status_succeeded, agent_op_status_failed, agent_op_stream_stdout, agent_op_type_exec,
  agent_op_type_upgrade,
}
use software_distribution_pl.Kube.{ApiError, not_found}
use software_distribution_pl.AgentOps.Specs.{
  Handler, image, timeout, self_namespace, upgrade_opts, build_job_spec, build_upgrade_job_spec,
}
use software_distribution_pl.AgentOps.Drain.{Tick, watch_job}

-- What an operation does to the world. `panic` ends the whole process.
pub data Effect : Type 0 where
  send_op_status : AgentOpStatusPayload → Effect
  send_op_log : AgentOpLogPayload → Effect
  create_job : (namespace : String) (job : Job) → Effect
  create_namespace : String → Effect
  panic : Effect

-- The answer to the creation of a Job: its name, or the class and the text of the error.
pub data Created : Type 0 where
  created : (name : String) → Created
  refused : ApiError → (text : String) → Created

-- A client for a kubeconfig, or which of the two steps failed.
pub data Client : Type 0 where
  usable : Client
  invalid_config : (text : String) → Client
  not_built : (text : String) → Client

-- What is outside: the API servers, the file of the service account, and two verbs of package fmt.
pub record World : Type 0 where
  pub client_for : List ℕ → Client
  pub create : List Effect → (namespace : String) → Job → Created
  pub ticks : (namespace name : String) → List Tick
  pub jobs_of : (namespace op_id : String) → Option (List String)
  pub namespace_file : Option String
  pub quote : String → String
  pub show_duration : Duration → String

module _ (w : World) (h : Handler) (p : AgentOpDispatchPayload) where
  abbrev pub report : String → String → Effect
  report status message =
      send_op_status (record { op_id = p.op_id; status = status; message = message })

  abbrev pub fail : String → List Effect
  fail message = report agent_op_status_failed message ∷ []

  -- An empty chunk is not sent.
  abbrev pub send_chunk : String → String → List Effect
  send_chunk stream chunk =
      if chunk == ""
      then []
      else send_op_log (record { op_id = p.op_id; stream = stream; chunk = chunk }) ∷ []

  abbrev pub send_chunks : List (String × String) → List Effect
  send_chunks [] = []
  send_chunks ((pod, chunk) ∷ rest) =
      join (send_chunk agent_op_stream_stdout chunk) (send_chunks rest)

  -- The Job runs: its log and its end are reported.
  unfoldable pub follow : (namespace name : String) → List Effect
  unfolding watch_job
  follow namespace name =
      let (chunks, status, message) =
        watch_job (w.show_duration (timeout h)) (w.ticks namespace name) [] in
      join (send_chunks chunks) (report status message ∷ [])

  unfoldable pub after_create : (namespace : String) → Created → List Effect
  unfolding follow
  after_create namespace (created name) = follow namespace name
  after_create namespace (refused e text) = fail ("create job: " ++ text)

  -- A namespace that is missing is created, and the Job once more, whatever the creation of the namespace answers.
  unfoldable pub retry_create : List Effect → (namespace : String) → Job → Created → List Effect
  unfolding after_create
  retry_create done namespace job (refused not_found text) =
      let again = join done (create_namespace namespace ∷ []) in
      create_namespace namespace
      ∷ create_job namespace job
      ∷ after_create namespace (w.create again namespace job)
  retry_create done namespace job answer = after_create namespace answer

  unfoldable pub run_job : List Effect → List Effect
  unfolding retry_create build_job_spec
  run_job done =
      let (namespace, job) = build_job_spec p (image h) in
      create_job namespace job
      ∷ retry_create (join done (create_job namespace job ∷ [])) namespace job
          (w.create done namespace job)

  unfoldable pub client_job : List Effect → Client → List Effect
  unfolding run_job
  client_job done usable = run_job done
  client_job done (invalid_config text) = fail ("invalid kubeconfig: " ++ text)
  client_job done (not_built text) = fail ("build client from kubeconfig: " ++ text)

  -- The client is that of the kubeconfig, if there is one.
  unfoldable pub kubeconfig_job : List Effect → List ℕ → List Effect
  unfolding client_job
  kubeconfig_job done [] =
      if h.has_clientset
      then run_job done
      else fail "no cluster credentials available (no in-cluster config, no kubeconfig)"
  kubeconfig_job done (b ∷ bs) = client_job done (w.client_for (b ∷ bs))

  unfoldable pub execute_job : List Effect → List Effect
  unfolding kubeconfig_job
  execute_job done = kubeconfig_job done p.kubeconfig

  unfoldable pub after_upgrade : Created → List Effect
  after_upgrade (created name) = []
  after_upgrade (refused e text) = fail ("create upgrade job: " ++ text)

  unfoldable pub run_upgrade :
      List Effect → (namespace : String) → Option (String × Job) → List Effect
  unfolding after_upgrade
  run_upgrade done namespace none = panic ∷ []
  run_upgrade done namespace (some (ns, job)) =
      create_job namespace job ∷ after_upgrade (w.create done namespace job)

  unfoldable pub create_upgrade : List Effect → (namespace : String) → List Effect
  unfolding run_upgrade build_upgrade_job_spec
  create_upgrade done namespace =
      run_upgrade done namespace (build_upgrade_job_spec p (upgrade_opts h namespace))

  -- The answer to the search for a Job of this operation.
  unfoldable pub probe : List Effect → (namespace : String) → Option (List String) → List Effect
  unfolding create_upgrade
  probe done namespace (some (name ∷ _)) =
      send_chunk agent_op_stream_stdout ("upgrade job already in flight: " ++ name ++ "\n")
  probe done namespace _ = create_upgrade done namespace

  unfoldable pub execute_upgrade : List Effect → List Effect
  unfolding probe
  execute_upgrade done =
      let namespace = self_namespace h w.namespace_file in
      if h.self_upgrade_disabled
      then fail "self-upgrade disabled on this runner (chart runner.selfUpgrade.enabled=false)"
      else if p.detail == ""
      then fail "upgrade op carries no target version"
      else if not h.has_clientset
      then fail "no in-cluster credentials for self-upgrade"
      else probe done namespace (w.jobs_of namespace p.op_id)

  unfoldable pub execute : List Effect
  unfolding execute_upgrade execute_job
  execute =
      let first = report agent_op_status_running "" in
      first
      ∷ (if p.op_type == agent_op_type_upgrade
          then execute_upgrade (first ∷ [])
          else if not (p.op_type == agent_op_type_exec)
          then fail ("runner cannot execute op type " ++ w.quote p.op_type)
          else execute_job (first ∷ []))
