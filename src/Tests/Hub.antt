-- ===== src/Tests/Hub.antt =====
-- The theorems on the connection to the hub and on agent operations at sample inputs.
use Prim.Native.String.{len}
use software_distribution_pl.Prelude.{
  ◌<◌, ℕ, zero, suc, pos, if◌then◌else◌, ◌≤◌, ◌≡◌, refl, String, string_eq, ◌==◌, ltb, Bool, true,
  false, ◌&&◌, none, some, List, [], ◌∷◌, ◌++◌ as join, length, arith, all_chars, lookup, insert,
}
use software_distribution_pl.Api.Payloads.{AgentOpDispatchPayload, agent_op_status_running}
use software_distribution_pl.Connector.{
  Client, new, with_enroll_bootstrap, Message, Outbox, outbox_size, Event, enqueue, opens, up,
  written, heartbeat, write_failed, serve, serve_connection, current_token, persist_credential,
  failed_after, finished, run_waits,
}
use software_distribution_pl.Connector.Fifo.{frames, all_accepted, opened}
use software_distribution_pl.Connector.Opening.{
  all_opening, HoldsBack, serve_connection-frames, serve_connection-blocked,
}
use software_distribution_pl.Connector.Backoff.{expected_waits, losses, run_waits-losses}
use software_distribution_pl.Connector.Token.{current_token-persist_credential}
use software_distribution_pl.AgentOps.{World, Effect, created, usable, report, execute}
use software_distribution_pl.AgentOps.Specs.{Handler}
use software_distribution_pl.AgentOps.Drain.{Tick, job_at, watch_job, visited}
use software_distribution_pl.AgentOps.Pods.{text_of, see_pods, see_pod, Extends}
use software_distribution_pl.AgentOps.Watch.{
  last_seen, see_tick, nothing, AllGrow, text_of-watch_job,
}
use software_distribution_pl.AgentOps.Reports.{Concludes, execute-Concludes}
use software_distribution_pl.AgentOps.Upgrades.{panics, is_clear, execute-panics}

abbrev frame : String → String → Message
frame type payload = record { type = type; payload = payload }

abbrev beat : Message
beat = frame "heartbeat" "{}"

abbrev hello : Message
hello = frame "agent_info" "{}"

-- A status that was sent while the connection was down.
abbrev waiting : Outbox
waiting = frame "status_update" "{}" ∷ []

abbrev events : List Event
events = enqueue beat ∷ opens ∷ written ∷ heartbeat ∷ write_failed "broken pipe" ∷ written ∷ []

serve_connection-frames_example :
    let s = serve_connection beat (hello ∷ []) [] events waiting in
    let start = opened (hello ∷ []) waiting in
    (frames s ≡ join waiting (all_accepted beat events start))
    × (length s.dropped ≤ 1)
    × (join (all_opening beat events start) s.pending ≡ hello ∷ [])
    × HoldsBack s
serve_connection-frames_example = serve_connection-frames beat (hello ∷ []) [] events waiting

-- The identity frame is not the first on the wire.
status_first : (serve_connection beat (hello ∷ []) [] (opens ∷ written ∷ []) waiting).sent ≡ waiting
unfolding serve_connection serve
status_first = refl

abbrev full_from : ℕ → Outbox
full_from zero = []
full_from (suc n) = beat ∷ full_from n

serve_connection-blocked_example :
    let s = serve_connection beat (hello ∷ []) [] events (full_from 256) in
    (s.sent ≡ [])
    × (s.dropped ≡ [])
    × (s.queue
        ≡ join (full_from 256) (all_accepted beat events (opened (hello ∷ []) (full_from 256))))
    × (0 < length s.pending)
    × (length s.queue ≤ outbox_size)
    × (s.outcome ≡ up)
serve_connection-blocked_example =
    serve_connection-blocked beat (hello ∷ []) [] events (full_from 256) (omega arith) (omega arith)

run_waits-losses_example :
    run_waits (failed_after 0 ∷ failed_after 86400 ∷ failed_after 0 ∷ finished ∷ [])
    ≡ expected_waits 0
        (losses (failed_after 0 ∷ failed_after 86400 ∷ failed_after 0 ∷ finished ∷ []))
run_waits-losses_example =
    run_waits-losses (failed_after 0 ∷ failed_after 86400 ∷ failed_after 0 ∷ finished ∷ [])

abbrev client : Client
client = with_enroll_bootstrap (new "wss://hub" "site-a" "") "once" "/var/lib/sdp/credential"

current_token-persist_credential_example :
    current_token client (persist_credential client "s3cret") ≡ "s3cret"
unfolding all_chars
current_token-persist_credential_example =
    current_token-persist_credential client "s3cret" refl refl refl

abbrev operation : String → String → AgentOpDispatchPayload
operation id type = record {
  op_id = id;
  target_id = "site-a";
  env_id = "";
  op_type = type;
  detail = "1.4.0";
  namespace = "";
  kubeconfig = [];
}

abbrev handler : Handler
handler = record {
  has_clientset = true;
  target_name = "site-a";
  image = "";
  timeout = pos 0;
  self_namespace = "sdp";
  self_deployment = "";
  self_container = "";
  self_sa = "";
  self_runner_image = "";
  self_kubectl_image = "";
  self_upgrade_disabled = false;
}

-- The log of the one pod grows from tick to tick.
abbrev ticks : List Tick
ticks =
    record {
      job = job_at (pos 0) [];
      pods = some ("pod" ∷ []);
      log_of = λ p. if "pod" == p then some "a" else none;
    }
    ∷ record {
      job = job_at (pos 1) [];
      pods = some ("pod" ∷ []);
      log_of = λ p. if "pod" == p then some "ab" else none;
    }
    ∷ []

first_grows : (b : Bool) → Extends "" (if b then some "a" else none)
first_grows true = ("a", refl)
first_grows false = tt

then_grows : (b : Bool) → Extends (if b then "a" else "") (if b then some "ab" else none)
then_grows true = ("b", refl)
then_grows false = tt

all_grow : AllGrow ticks nothing
unfolding see_tick visited see_pods see_pod
all_grow = (λ p. first_grows ("pod" == p), (λ p. then_grows ("pod" == p), tt))

text_of-watch_job_example :
    text_of "pod" (watch_job "10m0s" ticks []).0 ≡ last_seen ticks nothing "pod"
text_of-watch_job_example = text_of-watch_job "10m0s" ticks all_grow "pod"

ships_log : text_of "pod" (watch_job "10m0s" ticks []).0 ≡ "ab"
unfolding watch_job text_of lookup insert
ships_log = refl

abbrev world : World
world = record {
  client_for = λ config. usable;
  create = λ done ns job. created "sdp-agentop-x";
  ticks = λ ns name. ticks;
  jobs_of = λ ns id. some [];
  namespace_file = none;
  quote = λ s. s;
  show_duration = λ d. "10m0s";
}

execute-Concludes_example :
    (rest : List Effect) × (execute world handler (operation "0123-4567" "exec")
      ≡ report world handler (operation "0123-4567" "exec") agent_op_status_running "" ∷ rest)
    × Concludes world handler (operation "0123-4567" "exec") rest
execute-Concludes_example = execute-Concludes world handler (operation "0123-4567" "exec") refl

execute-panics_example :
    panics (execute world handler (operation "op-1" "upgrade"))
    ≡ (is_clear world handler (operation "op-1" "upgrade") && ltb (len "op-1") 8)
execute-panics_example = execute-panics world handler (operation "op-1" "upgrade") refl

short_id_panics : panics (execute world handler (operation "op-1" "upgrade")) ≡ true
unfolding execute
short_id_panics = refl
