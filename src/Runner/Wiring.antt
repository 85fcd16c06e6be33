-- ===== src/Runner/Wiring.antt =====
-- cmd/runner/main.go: which handler a message of the hub reaches. The connection runs from before the first
-- manager is built, and each attempt to start a manager builds a new one and registers the handlers anew.
use software_distribution_pl.Prelude.{
  ℕ, ◌+◌, Bool, true, not, String, string_eq, Option, none, some, List, [], ◌∷◌, Map, lookup,
  insert, if◌then◌else◌,
}
use software_distribution_pl.Connector.{
  Message, message_apply_pipeline_run, message_approve_task, message_rerun_task,
  message_cancel_pipeline_run, message_rollout_control, message_agent_op,
}

-- A handler; those of package dispatch hold the client of the manager of an attempt.
pub data Bound : Type 0 where
  agent_op_handler : Bound
  apply_handler approve_handler rollout_control_handler rerun_handler cancel_handler :
      (manager : ℕ) → Bound

-- The part of the connector's Client that main sets: the map of the handlers, and the manager whose state the hook of
-- a connection sends, if a hook is set.
pub record Wiring : Type 0 where
  pub handlers : Map Bound
  pub on_connect : Option ℕ

unfoldable pub on_message : String → Bound → Wiring → Wiring
on_message type h w = record w { handlers = insert type h w.handlers }

-- What main registers once.
unfoldable pub first_wiring : Wiring
unfolding on_message
first_wiring =
    on_message message_agent_op agent_op_handler (record { handlers = []; on_connect = none })

-- One of the calls that startManager makes once it has a manager.
pub data Registration : Type 0 where
  handler : String → Bound → Registration
  hook : (manager : ℕ) → Registration

unfoldable pub register : Registration → Wiring → Wiring
unfolding on_message
register (handler type h) w = on_message type h w
register (hook n) w = record w { on_connect = some n }

-- These calls, in their order.
unfoldable pub registrations : (manager : ℕ) → List Registration
registrations n =
    handler message_apply_pipeline_run (apply_handler n)
    ∷ handler message_approve_task (approve_handler n)
    ∷ handler message_rollout_control (rollout_control_handler n)
    ∷ handler message_rerun_task (rerun_handler n)
    ∷ handler message_cancel_pipeline_run (cancel_handler n)
    ∷ hook n
    ∷ []

-- The process: what is registered, and the calls that the attempt in progress has still to make.
pub record Process : Type 0 where
  pub wiring : Wiring
  pub pending : List Registration

unfoldable pub first_process : Process
unfolding first_wiring
first_process = record { wiring = first_wiring; pending = [] }

-- What controller-runtime makes of an attempt: whether there is a manager, whether each reconciler is set up with it,
-- and whether it stops without an error.
pub record ManagerStart : Type 0 where
  pub is_built : Bool
  pub runs_set_up : Bool
  pub task_runs_set_up : Bool
  pub rollouts_set_up : Bool
  pub stops_cleanly : Bool

-- Whether startManager returns an error once the handlers are registered.
unfoldable pub run_manager : ManagerStart → Bool
run_manager s =
    if not s.runs_set_up
    then true
    else if not s.task_runs_set_up
    then true
    else if not s.rollouts_set_up
    then true
    else not s.stops_cleanly

-- The start of an attempt, and whether the attempt will return an error.
unfoldable pub start_manager : (manager : ℕ) → ManagerStart → Process → Process × Bool
unfolding registrations run_manager
start_manager n s p =
    if not s.is_built then (p, true) else (record p { pending = registrations n }, run_manager s)

-- What happens in the process: a message is read, a connection is made, an attempt to start a manager begins, or it
-- makes its next call. Each write to the map of handlers is taken as one step, though no lock makes it one.
pub data Occasion : Type 0 where
  arrives : Message → Occasion
  connects : Occasion
  attempts : ManagerStart → Occasion
  registers : Occasion

-- What comes of it: a handler gets a message, or the runs are sent again, by the client of a manager.
pub data Delivery : Type 0 where
  handles : Message → Bound → Delivery
  resyncs : (manager : ℕ) → Delivery

-- A message for which there is no handler is dropped.
abbrev pub handed : Message → Option Bound → List Delivery → List Delivery
handed m none later = later
handed m (some h) later = handles m h ∷ later

abbrev pub hooked : Option ℕ → List Delivery → List Delivery
hooked none later = later
hooked (some n) later = resyncs n ∷ later

abbrev pub unless_busy : List Registration → (later same : List Delivery) → List Delivery
unless_busy [] later same = later
unless_busy (x ∷ xs) later same = same

-- What is delivered in a process; n is the number of the next attempt. An attempt begins when the one before has made its
-- calls; otherwise nothing happens.
unfoldable pub delivered : (n : ℕ) → Process → List Occasion → List Delivery
unfolding start_manager register
delivered n p [] = []
delivered n p (attempts s ∷ rest) =
    let later = delivered (n + 1) (start_manager n s p).0 rest in
    let same = delivered n p rest in unless_busy p.pending later same
delivered n p (registers ∷ rest) =
    delivered n
      (elim p.pending [ [] ↦ p | x ∷ xs ↦ record { wiring = register x p.wiring; pending = xs } ])
      rest
delivered n p (connects ∷ rest) = hooked p.wiring.on_connect (delivered n p rest)
delivered n p (arrives m ∷ rest) = handed m (lookup m.type p.wiring.handlers) (delivered n p rest)
