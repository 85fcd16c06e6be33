-- ===== src/Runner/Stages.antt =====
-- Which handler a message of the hub is meant for, and which manager a connection, at each stage of an attempt.
use software_distribution_pl.Prelude.{
  ℕ, ◌+◌, ltb, nat_eq, String, string_eq, ◌==◌, Option, none, some, List, [], ◌∷◌, if◌then◌else◌,
}
use software_distribution_pl.Connector.{
  message_apply_pipeline_run, message_approve_task, message_rerun_task, message_cancel_pipeline_run,
  message_rollout_control, message_agent_op,
}
use software_distribution_pl.Runner.Wiring.{
  Bound, agent_op_handler, apply_handler, approve_handler, rollout_control_handler, rerun_handler,
  cancel_handler, ManagerStart, Occasion, arrives, connects, attempts, registers, Delivery, handed,
  hooked,
}

-- Where the managers are: the last one that is fully registered, if there is one, or one of which so many of the six calls
-- are made, after the given one.
pub data Stage : Type 0 where
  idle : (last : Option ℕ) → Stage
  wires : (before : Option ℕ) (manager made : ℕ) → Stage

-- The handler that a message is meant for, where the manager that it is to be handled by is given.
abbrev pub meant_for : Option ℕ → String → Option Bound
meant_for none type = if message_agent_op == type then some agent_op_handler else none
meant_for (some n) type =
    if message_cancel_pipeline_run == type
    then some (cancel_handler n)
    else if message_rerun_task == type
    then some (rerun_handler n)
    else if message_rollout_control == type
    then some (rollout_control_handler n)
    else if message_approve_task == type
    then some (approve_handler n)
    else if message_apply_pipeline_run == type
    then some (apply_handler n)
    else if message_agent_op == type
    then some agent_op_handler
    else none

-- The place of a type among the calls.
abbrev pub place : String → ℕ
place type =
    if message_cancel_pipeline_run == type
    then 4
    else if message_rerun_task == type
    then 3
    else if message_rollout_control == type
    then 2
    else if message_approve_task == type
    then 1
    else if message_apply_pipeline_run == type
    then 0
    else 5

-- While calls are being made, a message is meant for the new manager if the call for its type is made, and for the one before
-- otherwise.
abbrev pub meant_at : Option ℕ → (manager made : ℕ) → String → Option Bound
meant_at before n made type =
    if ltb (place type) made then meant_for (some n) type else meant_for before type

-- An attempt begins where the one before has made its calls.
unfoldable pub begin : (n : ℕ) → ManagerStart → Stage → ℕ × Stage
begin n s (idle last) = (n + 1, if s.is_built then wires last n 0 else idle last)
begin n s (wires before m made) = (n, wires before m made)

-- The sixth call sets the hook.
unfoldable pub go_on : Stage → Stage
go_on (idle last) = idle last
go_on (wires before n made) = if made == 5 then idle (some n) else wires before n (made + 1)

abbrev pub receiver : Stage → String → Option Bound
receiver (idle last) = meant_for last
receiver (wires before n made) = meant_at before n made

abbrev pub hooked_at : Stage → Option ℕ
hooked_at (idle last) = last
hooked_at (wires before n made) = before

-- The messages with the handlers that they are meant for, and the connections with the manager whose hook is set.
unfoldable pub addressed : (n : ℕ) → Stage → List Occasion → List Delivery
unfolding begin go_on
addressed n g [] = []
addressed n g (attempts s ∷ rest) = addressed (begin n s g).0 (begin n s g).1 rest
addressed n g (registers ∷ rest) = addressed n (go_on g) rest
addressed n g (connects ∷ rest) = hooked (hooked_at g) (addressed n g rest)
addressed n g (arrives m ∷ rest) = handed m (receiver g m.type) (addressed n g rest)
