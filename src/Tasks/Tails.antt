-- ===== src/Tasks/Tails.antt =====
-- What the streamers of pod logs guarantee.
use software_distribution_pl.Prelude.{
  ℕ, ◌*◌, ◌≤◌, ◌<◌, ◌≡◌, refl, String, string_eq, eq_iff, Bool-cases, Option, none, some, inl, inr,
  List, [], if◌then◌else◌, arith,
}
use software_distribution_pl.Api.Payloads.{LogChunkPayload}
use software_distribution_pl.Logs.{Sender, stream_logs}
use software_distribution_pl.Tasks.Streams.{
  Pods, Tail, job_pod_log, Streaming, request, finish, Step, requests, finishes, Reach, start, next,
}

-- One goroutine runs for a key in the map, and none for any other.
abbrev pub IsExclusive : Streaming → Type 0
IsExclusive s = (key : String) → s.running key ≡ (if s.loaded key then 1 else 0)

request-IsExclusive : (name : String) (s : Streaming) → IsExclusive s → IsExclusive (request name s)
unfolding request
request-IsExclusive name s h key = elim (Bool-cases (s.loaded name)) [
  | inl old ↦ rw old (h key)
  | inr new ↦ rw new (ground (arith, eq_iff name key, h name, h key))
]

finish-IsExclusive : (name : String) (s : Streaming) → IsExclusive s → IsExclusive (finish name s)
unfolding finish
finish-IsExclusive name s h key = ground (arith, h key)

Step-IsExclusive : {s u : Streaming} → Step s u → IsExclusive s → IsExclusive u
Step-IsExclusive {s} (requests key e) h = rw e (request-IsExclusive key s h)
Step-IsExclusive {s} (finishes key busy e) h = rw e (finish-IsExclusive key s h)

-- In every interleaving of requests and ends, one goroutine runs for a key that is in the map, and
-- none for any other.
pub Reach-IsExclusive : {s : Streaming} → Reach s → IsExclusive s
Reach-IsExclusive start = λ key. refl
Reach-IsExclusive (next r st) = Step-IsExclusive st (Reach-IsExclusive r)

module _ {E : Type 0} (w : Pods E) (out : Sender E) (p : LogChunkPayload) where
  -- What a streamer has done by an attempt: it has sent what StreamLogs sends of the log at the first attempt at
  -- which it could be opened, or nothing if there was none.
  pub data Tailed (from to : ℕ) (t : Tail E) : Type 0 where
    opened :
        (n : ℕ) (log : List String × Option E)
        → from ≤ n
        → n < to
        → ((m : ℕ) → from ≤ m → m < n → job_pod_log w m ≡ none)
        → job_pod_log w n ≡ some log
        → t ≡ record {
          frames = (stream_logs out log p).0;
          error = (stream_logs out log p).1;
          waited = 2 * n;
        }
        → Tailed from to t
    missed :
        ((m : ℕ) → from ≤ m → m < to → job_pod_log w m ≡ none)
        → t ≡ record { frames = []; error = none; waited = 2 * to }
        → Tailed from to t
