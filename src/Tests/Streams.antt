-- ===== src/Tests/Streams.antt =====
-- The theorems on streamers of logs and on the wiring of handlers at sample inputs.
use software_distribution_pl.Prelude.{
  ℕ, suc, ◌≡◌, refl, String, string_eq, Bool, true, false, Option, none, some, List, [], ◌∷◌,
}
use software_distribution_pl.Api.Payloads.{LogChunkPayload}
use software_distribution_pl.Tasks.Streams.{Pods, Streaming, start, next, requests, request, tail}
use software_distribution_pl.Tasks.Tails.{IsExclusive, Reach-IsExclusive}
use software_distribution_pl.Connector.{Message}
use software_distribution_pl.Logs.{Sender}
use software_distribution_pl.Runner.Wiring.{
  ManagerStart, Occasion, arrives, connects, attempts, registers, handles, resyncs, first_process,
  delivered, apply_handler, cancel_handler, agent_op_handler,
}
use software_distribution_pl.Runner.Stages.{idle as settled, addressed}
use software_distribution_pl.Runner.Addressed.{delivered-addressed}

abbrev quiet : Streaming
quiet = record { loaded = λ k. false; running = λ k. 0 }

abbrev twice : Streaming
twice = request "run-1/job" (request "run-1/job" quiet)

Reach-IsExclusive_example : IsExclusive twice
Reach-IsExclusive_example =
    Reach-IsExclusive (next (next start (requests "run-1/job" refl)) (requests "run-1/job" refl))

-- The pod is there from the third attempt on.
abbrev pods : Pods String
pods = record { list_pods = λ n. if_late n; open_log = λ n pod. some ("a" ∷ "b" ∷ [], none) }
  where
    if_late : ℕ → Option (List String)
    if_late (suc (suc n)) = some ("pod" ∷ [])
    if_late n = some []

abbrev sender : Sender String
sender = record { cancelled = λ sent. none; send_log_chunk = λ sent p. none }

abbrev payload : LogChunkPayload
payload = record {
  target_id = "site-a";
  pipeline_run_name = "run-1";
  task_name = "compile";
  stream = "";
  chunk = "";
}

waits_for_pod : (tail pods sender payload).waited ≡ 4
unfolding tail
waits_for_pod = refl

abbrev apply : Message
apply = record { type = "apply_pipeline_run"; payload = "{}" }

abbrev cancel : Message
cancel = record { type = "cancel_pipeline_run"; payload = "{}" }

abbrev operation : Message
operation = record { type = "agent_op"; payload = "{}" }

-- An attempt that fails while it sets the reconcilers up, or before.
abbrev started : Bool → ManagerStart
started is_built = record {
  is_built = is_built;
  runs_set_up = true;
  task_runs_set_up = false;
  rollouts_set_up = true;
  stops_cleanly = true;
}

-- The second attempt is making its calls when the hub sends and a connection is made.
abbrev busy_day : List Occasion
busy_day =
    arrives apply
    ∷ arrives operation
    ∷ connects
    ∷ attempts (started true)
    ∷ registers
    ∷ registers
    ∷ registers
    ∷ registers
    ∷ registers
    ∷ registers
    ∷ arrives cancel
    ∷ attempts (started true)
    ∷ registers
    ∷ connects
    ∷ arrives apply
    ∷ arrives cancel
    ∷ []

delivered-addressed_example :
    delivered 0 first_process busy_day ≡ addressed 0 (settled none) busy_day
delivered-addressed_example = delivered-addressed busy_day

between_managers :
    addressed 0 (settled none) busy_day
    ≡ handles operation agent_op_handler
      ∷ handles cancel (cancel_handler 0)
      ∷ resyncs 0
      ∷ handles apply (apply_handler 1)
      ∷ handles cancel (cancel_handler 0)
      ∷ []
unfolding addressed
between_managers = refl
