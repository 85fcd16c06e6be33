-- ===== src/Lib.antt =====
-- The verification library of the software distribution platform's runner: a Kubernetes controller that
-- executes pipeline runs and rolls releases out step by step on behalf of a hub.
--
-- Parts and files. The hub creates a PipelineRun, a DAG of tasks. The PipelineRun reconciler creates a TaskRun for
-- each task that may start; the TaskRun reconciler runs it as a Job, as a wait for an approval, or as a
-- Rollout; the Rollout reconciler asks the canary engine what to do next and scales the two Deployments.
--   Api           api/v1alpha1: the resources and payloads, a record for a struct, a data type for an enum;
--                 `unset` is the empty text of a phase.
--   Canary        pkg/canary/engine.go: Evaluate and its branches (evaluate_pause, evaluate_weight,
--                 evaluate_unready), RollbackDecision, weightReplicas, the pause stamp.
--   Dag           the pure half of internal/controller/pipelinerun_controller.go and pipelinerun_cancel.go:
--                 findRunnableTasks, serialBlocked, summarizeTasks, cancelledTaskSummary.
--   Pipelines     the reconciler of the same two files and ensure_rbac.go: Reconcile is reconcile,
--                 reconcile_run, observe, advance and schedule; applyCancelIfRequested, ResyncAll. Here,
--                 in Tasks and in Rollouts, Changes has the values that are created or stored.
--   Tasks         internal/controller/taskrun_controller.go and hub_ca.go: Reconcile by reconcile_task, reconcile_job
--                 (start_job, follow_job), reconcile_approval and reconcile_deploy;
--                 Attempts repeats whole reconciles of a task whose Jobs fail;
--                 Streams has the map of log streamers and the goroutine of one.
--   Rollouts      internal/controller/rollout_controller.go: Actions keeps Deployments, Service and Ingress,
--                 Commands carries out an operator's command, Walk is Reconcile with its holds.
--   Dispatch      internal/dispatch: the approve, cancel, rollout control and apply handlers, Rerun the rerun
--                 handler with DownstreamTasks.
--   Logs          pkg/logstream/logstream.go: SplitChunks and StreamLogs.
--   Jobs          pkg/executor/job_builder.go: Build, its containers (Containers), the names that it lets through or
--                 rewrites (Names), constants and helpers (Defaults).
--   AgentOps      internal/agentops/handler.go: execute and executeUpgrade, the Jobs they build (Specs), the watch of a Job
--                 and its log (Drain).
--   Connector     pkg/connector/client.go and api/v1alpha1/protocol.go: the bearer, the outbox, the loop of a connection
--                 as a function of its events, the backoff.
--   Health        pkg/health/health.go; Metrics pkg/metrics/metrics.go; Dispatch.Snapshot
--                 internal/dispatch/snapshot.go.
--   Runner        cmd/runner/main.go: what the process makes of its environment (connect, build_agent_handler,
--                 build_job_builder), the loop that starts the manager (start_loop), the handlers that the messages of
--                 the hub reach (Wiring, Stages, Addressed), and the hook of a connection (Hook).
--   Kube          the interface of all reconcilers to the world, below.
--   Prelude       integers with their wrap-around, maps, text and lists, over the native numbers.
--   Tests         sample resources, and each theorem at one of them.
--
-- State and effects. A reconciler is stateless: it reads the cluster, writes to it, and returns the delay of its
-- requeue. An operation is a function from the trace of the calls so far to the longer trace and a value or an
-- error (Kube.M). What the API answers is the record Cluster, whose fields may depend on the whole trace: a
-- theorem for every Cluster holds for every interleaving with other writers and for every failure. Theorems that
-- say which calls are made assume that writes are accepted (Kube.Runs.Accepts). A loop over a Go map is a loop
-- over a list in the order that the cluster's field `visit` gives.
--
-- Numbers. int32 and int64 arithmetic is written with its wrap-around (int32, int64); a duration is an integer of
-- nanoseconds and is not bounded; a step index is a natural number: the code starts it at 0 and only ever raises
-- it by one. That no other writer stores a negative one is assumed, and so is that it stays below 2^31. The loops
-- of the code run over lists, but for three that are written on fuel: the verb %d (Prelude.Text.digits_before),
-- with more fuel than the number itself; the queue of DownstreamTasks (Dispatch.Rerun.walk_queue), with one round
-- for each task and one more; and the starts of the manager (Runner.start_from), with one round for each of the
-- ten attempts.
--
-- Connection and operations. A connection is a Session: the frames on the wire, those whose write failed, the
-- outbox of 256 frames, and the frames with which the connection opens that are still to be sent, before which the
-- loop does not start; an event is the next of those sends, a frame from another goroutine, a heartbeat, the end of
-- a write, a read error or the end of the context, and a theorem for every list of events holds for every interleaving. An agent
-- operation is the list of its effects in order. Each of the six calls with which an attempt registers its
-- handlers and its hook is one step of the process, and a message or a connection can come between two of them;
-- that Go may end a process that reads a map during a write is left out. The report of a run is sent on a
-- goroutine of its own; the trace has it where the goroutine is started. The ticks of the watch are a list, since
-- the context ends the loop at a deadline. A panic is an effect of its own.
--
-- Not modelled. Formats of time, the HTTP client and the floats of a check are parameters. The objects that a
-- Create or an Update of a Deployment returns are those that were sent. Log lines are left out, alerts and the
-- values of collectors are calls. JSON, the websocket, the file system, HTTP, ParseFloat, SHA-256 and the line
-- scanner are outside. The set-up of the manager and of the reconcilers in cmd/runner are calls of
-- controller-runtime; api/v1alpha1/zz_generated.deepcopy.go is generated.
pub mod Prelude
pub mod Api
pub mod Canary
pub mod Dag
pub mod Kube
pub mod Pipelines
pub mod Tasks
pub mod Rollouts
pub mod Dispatch
pub mod Logs
pub mod Jobs
pub mod AgentOps
pub mod Connector
pub mod Health
pub mod Metrics
pub mod Runner
pub mod Tests
