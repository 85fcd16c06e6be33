-- ===== src/Connector.antt =====
-- pkg/connector/client.go and the message types of api/v1alpha1: the connection to the hub. The
-- websocket, the credential file and JSON are outside: what they answer is a parameter or an event.
pub mod Token
pub mod Fifo
pub mod Opening
pub mod Backoff
use Prim.Native.String.{◌++◌}
use software_distribution_pl.Prelude.{
  ℕ, suc, ◌*◌, String, string_eq, ◌==◌, ltb, Bool, true, false, not, ◌&&◌, Option, none, some, List,
  [], ◌∷◌, ◌++◌ as join, length, Map, lookup, insert, has_key, trim_space, if◌then◌else◌,
}
use software_distribution_pl.Api.Payloads.{AgentInfoPayload}

-- `MessageType` is a Go string; a payload is its JSON text.
pub record Message : Type 0 where
  pub type : String
  pub payload : String

abbrev pub message_apply_pipeline_run : String
message_apply_pipeline_run = "apply_pipeline_run"

abbrev pub message_approve_task : String
message_approve_task = "approve_task"

abbrev pub message_rerun_task : String
message_rerun_task = "rerun_task"

abbrev pub message_cancel_pipeline_run : String
message_cancel_pipeline_run = "cancel_pipeline_run"

abbrev pub message_rollout_control : String
message_rollout_control = "rollout_control"

abbrev pub message_agent_op : String
message_agent_op = "agent_op"

abbrev pub message_status_update : String
message_status_update = "status_update"

abbrev pub message_log_chunk : String
message_log_chunk = "log_chunk"

abbrev pub message_heartbeat : String
message_heartbeat = "heartbeat"

abbrev pub message_agent_op_status : String
message_agent_op_status = "agent_op_status"

abbrev pub message_agent_op_log : String
message_agent_op_log = "agent_op_log"

abbrev pub message_agent_info : String
message_agent_info = "agent_info"

-- The settings of a client. The handlers and the queue are given apart.
pub record Client : Type 0 where
  pub hub_url : String
  pub target_name : String
  pub auth_token : String
  pub enroll_token : String
  pub credential_file : String
  pub vendor : String
  pub region : String
  pub agent_info : Option AgentInfoPayload

abbrev pub new : (hub_url target_name auth_token : String) → Client
new hub_url target_name auth_token = record {
  hub_url = hub_url;
  target_name = target_name;
  auth_token = auth_token;
  enroll_token = "";
  credential_file = "";
  vendor = "";
  region = "";
  agent_info = none;
}

abbrev pub with_enroll_info : Client → (vendor region : String) → Client
with_enroll_info c vendor region = record c { vendor = vendor; region = region }

abbrev pub with_enroll_bootstrap : Client → (enroll_token credential_file : String) → Client
with_enroll_bootstrap c enroll_token credential_file = record c {
  enroll_token = enroll_token;
  credential_file = credential_file;
}

-- The values that package runtime reports of the binary.
pub record Runtime : Type 0 where
  pub goos : String
  pub goarch : String
  pub version : String

abbrev or_runtime : String → String → String
or_runtime given default = if given == "" then default else given

abbrev pub with_agent_info : Runtime → Client → AgentInfoPayload → Client
with_agent_info r c info = record c {
  agent_info = some (record info {
    os = or_runtime info.os r.goos;
    arch = or_runtime info.arch r.goarch;
    go_version = or_runtime info.go_version r.version;
  });
}

-- The bearer of a dial. The file is its content, or none if it cannot be read.
unfoldable pub current_token : Client → (file : Option String) → String
current_token c file =
    let fallback = if not (c.enroll_token == "") then c.enroll_token else c.auth_token in
    let stored : String = elim file [ none ↦ "" | some text ↦ trim_space text ] in
    if not (c.credential_file == "") && not (stored == "") then stored else fallback

-- What is written to the credential file, if anything is. The attempt is only logged if it fails.
unfoldable pub persist_credential : Client → (cred : String) → Option String
persist_credential c cred =
    let text = some (cred ++ "\n") in
    if c.credential_file == "" then none else if cred == "" then none else text

-- The headers of a dial.
unfoldable pub headers : Client → (token : String) → Map String
headers c token =
    let enroll : Map String = ("X-Target-Vendor", c.vendor) ∷ ("X-Target-Region", c.region) ∷ [] in
    ("Authorization", "Bearer " ++ token)
    ∷ ("X-Target-Name", c.target_name)
    ∷ (if not (c.vendor == "") && not (c.region == "") then enroll else [])

-- The frames that wait for the connection, the oldest first.
abbrev pub Outbox : Type 0
Outbox = List Message

abbrev pub outbox_size : ℕ
outbox_size = 256

-- `c.outbox <- msg`: none while the channel is full, where the sender blocks.
unfoldable pub send : Message → Outbox → Option Outbox
send m q = if ltb (length q) outbox_size then some (join q (m ∷ [])) else none

-- What happens while a connection is up. Another goroutine sends a frame, at any time; the goroutine of the connection
-- sends the next of the frames with which it opens; in its loop the ticker fires, a write ends, the reader fails or the
-- context is done.
pub data Event : Type 0 where
  enqueue : Message → Event
  opens : Event
  heartbeat : Event
  written : Event
  write_failed : (error : String) → Event
  read_failed : (error : String) → Event
  done : Event

-- How a connection ends. `blocked` is a send of the loop itself at a full channel, which nothing drains.
pub data Outcome : Type 0 where
  up blocked stopped : Outcome
  lost : (error : String) → Outcome

abbrev pub is_up : Outcome → Bool
is_up up = true
is_up _ = false

-- The frames on the wire, those taken from the queue whose write failed, the queue, and the frames that are still to
-- be sent to the queue before the loop starts.
pub record Session : Type 0 where
  pub sent : List Message
  pub dropped : List Message
  pub queue : Outbox
  pub pending : List Message
  pub outcome : Outcome

-- The loop starts once no frame is pending.
abbrev pub in_loop : Session → Session → Session
in_loop s next = elim s.pending [ [] ↦ next | m ∷ ms ↦ s ]

module _ (beat : Message) where
  -- An event that cannot happen in this state changes nothing; a send at a full channel is not made yet.
  unfoldable pub step : Session → Event → Session
  unfolding send
  step s (enqueue m) = elim (send m s.queue) [ none ↦ s | some q ↦ record s { queue = q } ]
  step s opens = elim s.pending [
    | [] ↦ s
    | m ∷ ms ↦ elim (send m s.queue) [ none ↦ s | some q ↦ record s { queue = q; pending = ms } ]
  ]
  step s heartbeat = in_loop s (elim (send beat s.queue) [
    | none ↦ record s { outcome = blocked }
    | some q ↦ record s { queue = q }
  ])
  step s written =
      in_loop s
        (elim s.queue [ [] ↦ s | m ∷ q ↦ record s { sent = join s.sent (m ∷ []); queue = q } ])
  step s (write_failed error) = in_loop s (elim s.queue [
    | [] ↦ s
    | m ∷ q ↦ record s { dropped = join s.dropped (m ∷ []); queue = q; outcome = lost error }
  ])
  step s (read_failed error) = in_loop s (record s { outcome = lost error })
  step s done = in_loop s (record s { outcome = stopped })

  -- A connection goes on while it is up.
  unfoldable pub serve : List Event → Session → Session
  unfolding step
  serve [] s = s
  serve (e ∷ es) s = let next = serve es (step s e) in if is_up s.outcome then next else s

  -- A connection from the dial on: the identity frame, the frames of the resync hook, then the loop. The reader starts
  -- with the loop.
  unfoldable pub serve_connection : (info resync : List Message) → List Event → Outbox → Session
  unfolding serve
  serve_connection info resync events q =
      serve events
        (record { sent = []; dropped = []; queue = q; pending = join info resync; outcome = up })

-- `readLoop`: the messages that reach their handler, in order. An error of a handler is only logged.
unfoldable pub read_loop {ℓ} : {H : Type ℓ} → Map H → List Message → List Message
unfolding has_key
read_loop handlers [] = []
read_loop handlers (m ∷ ms) =
    let rest = read_loop handlers ms in if has_key m.type handlers then m ∷ rest else rest

-- One round of Run: whether connectAndServe returned an error. It returns none only once the context is done.
pub data Round : Type 0 where
  failed_after : (seconds_up : ℕ) → Round
  finished : Round

-- The waits, in seconds, from a first wait on.
unfoldable pub waits : (backoff : ℕ) → List Round → List ℕ
waits backoff [] = []
waits backoff (failed_after seconds ∷ rounds) =
    backoff ∷ waits (if ltb backoff 30 then backoff * 2 else backoff) rounds
waits backoff (finished ∷ rounds) = []

unfoldable pub run_waits : List Round → List ℕ
unfolding waits
run_waits rounds = waits 1 rounds
