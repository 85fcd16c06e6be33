-- ===== src/Kube.antt =====
-- The Kubernetes API and the connection to the hub, as the reconcilers and handlers see them. Both are outside
-- this repository: what they answer is a parameter, the record `Cluster`, and what the runner
-- asks them to do is recorded, in order, in a trace of calls.
pub mod Counts
pub mod Runs
pub mod Writes
use software_distribution_pl.Prelude.{
  ℕ, ℤ, String, Bool, true, false, Option, none, some, List, [], ◌∷◌, Map,
}
use software_distribution_pl.Api.Meta.{Time, ObjectMeta, ObjectKey}
use software_distribution_pl.Api.Rollout.{Rollout}
use software_distribution_pl.Api.Pipeline.{PipelineRun, PipelineTaskType, TaskRunPhase}
use software_distribution_pl.Api.Job.{Job}
use software_distribution_pl.Api.Task.{TaskRun}
use software_distribution_pl.Api.Payloads.{StatusUpdatePayload}

-- The classes of an API error that the code tells apart (apierrors.IsNotFound, IsAlreadyExists).
pub data ApiError : Type 0 where
  not_found already_exists other : ApiError

-- What an operation of the runner returns as its `error`.
pub data Error : Type 0 where
  api : ApiError → Error
  invalid : String → Error

pub data Result {ℓ} (A : Type ℓ) : Type ℓ where
  ok : A → Result A
  err : Error → Result A

-- The part of a Deployment that the rollout controller reads or writes.
pub record Deployment : Type 0 where
  pub meta : ObjectMeta
  pub replicas : Option ℤ
  pub image : String
  pub container_ports : List (List ℤ)
  pub available_replicas : ℤ
  pub replica_failure : List (Bool × Bool)

-- The part of a Job's status that the task controller reads.
pub record JobStatus : Type 0 where
  pub succeeded : ℤ
  pub failed : ℤ

-- The Ingress that the code builds: one rule for a host with one path to a port of a Service. Its path type is
-- Prefix.
pub record IngressSpec : Type 0 where
  pub host : String
  pub path : String
  pub service : String
  pub port : ℕ

-- A write request to the API, a frame to the hub, a log streamer that is started, an alert, or a value that is given
-- to a collector of pkg/metrics. A patch carries the object
-- that it is computed against and the changed object.
pub data Call : Type 0 where
  create_namespace : String → Call
  create_service_account : ObjectKey → Call
  create_role : ObjectKey → Call
  create_role_binding : (key : ObjectKey) (service_account : String) → Call
  create_run : PipelineRun → Call
  update_run_status : PipelineRun → Call
  patch_run : (base changed : PipelineRun) → Call
  create_task_run : TaskRun → Call
  update_task_status : TaskRun → Call
  delete_task_run : ObjectKey → Call
  create_ca_map : (key : ObjectKey) (bundle : String) → Call
  update_ca_map : (key : ObjectKey) (bundle : String) → Call
  create_job : Job → Call
  delete_job : ObjectKey → Call
  create_rollout : Rollout → Call
  update_rollout_status : Rollout → Call
  patch_rollout : (base changed : Rollout) → Call
  delete_rollout : ObjectKey → Call
  create_deployment : Deployment → Call
  patch_deployment : (base changed : Deployment) → Call
  create_service : (key : ObjectKey) (app : String) (target_port : ℤ) → Call
  create_ingress : (key : ObjectKey) (spec : IngressSpec) (weight : ℤ) → Call
  patch_ingress : (key : ObjectKey) (weight : ℤ) → Call
  send_status : StatusUpdatePayload → Call
  stream_logs : String → Call
  alert : (kind name message : String) → Call
  record_phase : (type : PipelineTaskType) (phase : TaskRunPhase) → Call
  set_weight : (weight : ℤ) → Call
  count_reconnect : Call

-- The calls so far, the last one first.
abbrev pub Trace : Type 0
Trace = List Call

-- What the world answers, which may depend on all the calls before.
pub record Cluster : Type 0 where
  -- The error of a write, or none.
  pub write : Trace → Call → Option ApiError
  -- The object that a successful status update or patch returns.
  pub stored_run : Trace → PipelineRun → PipelineRun
  pub stored_rollout : Trace → Rollout → Rollout
  pub get_run : Trace → ObjectKey → Result PipelineRun
  pub get_task_run : Trace → ObjectKey → Result TaskRun
  pub get_rollout : Trace → ObjectKey → Result Rollout
  pub get_job : Trace → ObjectKey → Result JobStatus
  pub get_deployment : Trace → ObjectKey → Result Deployment
  pub get_namespace : Trace → String → Result (Unit {0})
  pub get_service : Trace → ObjectKey → Result (Unit {0})
  pub get_ingress : Trace → ObjectKey → Result (Unit {0})
  pub get_ca_map : Trace → ObjectKey → Result String
  -- The TaskRuns and Rollouts that carry the labels.
  pub list_task_runs : Trace → (namespace : Option String) → Map String → Result (List TaskRun)
  pub list_rollouts : Trace → (namespace : Option String) → Map String → Result (List Rollout)
  pub list_runs : Trace → Map String → Result (List PipelineRun)
  -- controllerutil.SetControllerReference.
  pub set_owner : (owner object : ObjectMeta) → Option ApiError
  -- The order in which a `range` over the map that was built from a list of TaskRuns visits them.
  pub visit : List TaskRun → List TaskRun
  pub now : Trace → Time
  -- Whether a streamer with the key is in flight.
  pub is_streaming : Trace → String → Bool

-- An operation extends the trace and returns a value or an error.
abbrev pub M : Type 0 → Type 0
M A = Trace → Trace × Result A

infixl 5 ◌>>=◌ ◌>>◌
abbrev pub ◌>>=◌ : {A B : Type 0} (first : M A) (next : A → M B) → M B
◌>>=◌ first next tr =
    let done = first tr in elim done.1 [ ok a ↦ next a done.0 | err e ↦ (done.0, err e) ]

abbrev pub ◌>>◌ : {B : Type 0} (first : M (Unit {0})) (next : M B) → M B
first >> next = first >>= λ done. next

abbrev pub pure : {A : Type 0} → A → M A
pure a tr = (tr, ok a)

abbrev pub fail : {A : Type 0} → Error → M A
fail e tr = (tr, err e)

-- A read at the present state of the world.
abbrev pub read : {A : Type 0} → (Trace → Result A) → M A
read q tr = (tr, q tr)

abbrev pub answer : Option ApiError → Result (Unit {0})
answer none = ok tt
answer (some e) = err (api e)

-- A write request.
abbrev pub emit : Cluster → Call → M (Unit {0})
emit k c tr = (c ∷ tr, answer (k.write tr c))

-- What is sent or counted with no answer.
abbrev pub note : Call → M (Unit {0})
note c tr = (c ∷ tr, ok tt)

-- `err != nil && !IsAlreadyExists(err)` and `err != nil && !IsNotFound(err)`.
abbrev pub forgive_exists : Result (Unit {0}) → Result (Unit {0})
forgive_exists (err (api already_exists)) = ok tt
forgive_exists r = r

abbrev pub forgive_missing : Result (Unit {0}) → Result (Unit {0})
forgive_missing (err (api not_found)) = ok tt
forgive_missing r = r

abbrev pub unless_exists : M (Unit {0}) → M (Unit {0})
unless_exists m tr = ((m tr).0, forgive_exists (m tr).1)

abbrev pub unless_missing : M (Unit {0}) → M (Unit {0})
unless_missing m tr = ((m tr).0, forgive_missing (m tr).1)

-- An error of which nothing follows but a line in the log.
abbrev pub ignore : M (Unit {0}) → M (Unit {0})
ignore m tr = ((m tr).0, ok tt)

-- A Get whose error ends the operation, quietly if the object is gone (client.IgnoreNotFound).
abbrev pub found_or_gone : {A B : Type 0} → Result A → B → (A → M B) → M B
found_or_gone (ok a) gone f = f a
found_or_gone (err (api not_found)) gone f = pure gone
found_or_gone (err e) gone f = fail e

abbrev pub with_found : {A B : Type 0} → (Trace → Result A) → B → (A → M B) → M B
with_found q gone f tr = found_or_gone (q tr) gone f tr

-- A loop over a list that stops at the first error.
unfoldable pub each : {A : Type 0} → (A → M (Unit {0})) → List A → M (Unit {0})
each f [] = pure tt
each f (x ∷ xs) = f x >> each f xs
