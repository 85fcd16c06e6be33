-- ===== src/Tasks/Streams.antt =====
-- The streamers of pod logs: the map that admits one for each Job, and the goroutine of one. Its context is never
-- done, since nothing but the goroutine itself cancels it.
use software_distribution_pl.Prelude.{
  ℕ, zero, suc, ◌+◌, ◌-◌, ◌<◌, ◌≡◌, String, string_eq, ◌==◌, Bool, true, false, Option, none, some,
  List, [], ◌∷◌, if◌then◌else◌,
}
use software_distribution_pl.Api.Payloads.{LogChunkPayload}
use software_distribution_pl.Api.Task.{TaskRun}
use software_distribution_pl.Logs.{Sender, stream_logs}

-- What the API answers at an attempt: the pods of the Job, unless the list fails, and what a scanner reads from the
-- log of a pod, unless it cannot be opened.
pub record Pods (E : Type 0) : Type 0 where
  pub list_pods : (attempt : ℕ) → Option (List String)
  pub open_log : (attempt : ℕ) (pod : String) → Option (List String × Option E)

-- What a streamer did: the frames that were accepted, the error of the stream, and the seconds that it waited.
pub record Tail (E : Type 0) : Type 0 where
  pub frames : List LogChunkPayload
  pub error : Option E
  pub waited : ℕ

abbrev pub max_attempts : ℕ
max_attempts = 10

-- The payload of a TaskRun's chunks, before the text is filled in.
unfoldable pub log_payload : (target_name : String) → TaskRun → LogChunkPayload
log_payload target_name t = record {
  target_id = target_name;
  pipeline_run_name = t.spec.pipeline_run_ref;
  task_name = t.spec.task_name;
  stream = "";
  chunk = "";
}

module _ {E : Type 0} (w : Pods E) where
  -- The log of the first pod.
  unfoldable pub job_pod_log : (attempt : ℕ) → Option (List String × Option E)
  job_pod_log attempt = elim (w.list_pods attempt) [
    | none ↦ none
    | some pods ↦ elim pods [ [] ↦ none | pod ∷ others ↦ w.open_log attempt pod ]
  ]

  -- The attempts that are left, from one on, after so many seconds.
  unfoldable pub tail_from : Sender E → LogChunkPayload → (left attempt waited : ℕ) → Tail E
  unfolding job_pod_log
  tail_from out p zero attempt waited = record { frames = []; error = none; waited = waited }
  tail_from out p (suc left) attempt waited =
      let later = tail_from out p left (attempt + 1) (waited + 2) in
      elim (job_pod_log attempt) [
        | some log ↦ record {
          frames = (stream_logs out log p).0;
          error = (stream_logs out log p).1;
          waited = waited;
        }
        | none ↦ later
      ]

  unfoldable pub tail : Sender E → LogChunkPayload → Tail E
  unfolding tail_from
  tail out p = tail_from out p max_attempts 0 0

-- The keys in the map `streaming`, and how many goroutines run for a key.
pub record Streaming : Type 0 where
  pub loaded : String → Bool
  pub running : String → ℕ

-- LoadOrStore, and the goroutine that is started where nothing was loaded.
unfoldable pub request : String → Streaming → Streaming
request key s = if s.loaded key then s else record {
  loaded = λ k. if key == k then true else s.loaded k;
  running = λ k. if key == k then s.running k + 1 else s.running k;
}

-- The end of a goroutine, and its deferred Delete.
unfoldable pub finish : String → Streaming → Streaming
finish key s = record {
  loaded = λ k. if key == k then false else s.loaded k;
  running = λ k. if key == k then s.running k - 1 else s.running k;
}

-- Any reconcile may ask for a streamer at any time, and any goroutine may end.
pub data Step (s u : Streaming) : Type 0 where
  requests : (key : String) → u ≡ request key s → Step s u
  finishes : (key : String) → 0 < s.running key → u ≡ finish key s → Step s u

pub data Reach : Streaming → Type 0 where
  start : Reach (record { loaded = λ k. false; running = λ k. 0 })
  next : {s u : Streaming} → Reach s → Step s u → Reach u
