-- ===== src/AgentOps/Drain.antt =====
-- internal/agentops/handler.go: the loop that follows a Job and ships its log.
use Prim.Native.Nat.{Ordering}
use Prim.Native.String.{◌++◌, len, slice, compare}
use software_distribution_pl.Prelude.{
  ℕ, ℤ, pos, ltb_ℤ, String, string_eq, ltb, Bool, Option, none, some, List, [], ◌∷◌, ◌++◌ as join,
  Map, lookup, insert, if◌then◌else◌,
}
use software_distribution_pl.Api.Payloads.{agent_op_status_succeeded, agent_op_status_failed}

-- A condition of a Job: whether it has the type Failed, and its message.
pub record Condition : Type 0 where
  pub is_failed : Bool
  pub message : String

-- What one tick reads: the Job or the error's text, the names of its pods unless the list fails, and their logs.
pub data JobRead : Type 0 where
  job_at : (succeeded : ℤ) (conditions : List Condition) → JobRead
  get_failed : (text : String) → JobRead

pub record Tick : Type 0 where
  pub job : JobRead
  pub pods : Option (List String)
  pub log_of : String → Option String

-- `sort.Strings`
abbrev pub insert_sorted : String → List String → List String
insert_sorted s [] = s ∷ []
insert_sorted s (x ∷ xs) =
    let rest = insert_sorted s xs in elim (compare s x) [ Ordering.gt ↦ x ∷ rest | _ ↦ s ∷ x ∷ xs ]

unfoldable pub sort_names : List String → List String
sort_names [] = []
sort_names (x ∷ xs) = insert_sorted x (sort_names xs)

-- The bytes of a pod's log that were sent.
unfoldable pub offset_of : String → Map ℕ → ℕ
unfolding lookup
offset_of name offsets = elim (lookup name offsets) [ none ↦ 0 | some n ↦ n ]

-- The chunks go with the name of their pod, which is not sent.
unfoldable pub drain_pod : String → Option String → Map ℕ → List (String × String) × Map ℕ
unfolding offset_of insert
drain_pod name none offsets = ([], offsets)
drain_pod name (some buf) offsets =
    let sent = offset_of name offsets in
    if ltb sent (len buf)
    then ((name, slice buf sent (len buf)) ∷ [], insert name (len buf) offsets)
    else ([], offsets)

unfoldable pub drain_pods :
    (String → Option String) → List String → Map ℕ → List (String × String) × Map ℕ
unfolding drain_pod
drain_pods log_of [] offsets = ([], offsets)
drain_pods log_of (name ∷ names) offsets =
    let (chunks, offsets') = drain_pod name (log_of name) offsets in
    let (more, last) = drain_pods log_of names offsets' in (join chunks more, last)

-- The pods that a tick visits.
unfoldable pub visited : Tick → List String
unfolding sort_names
visited t = elim t.pods [ none ↦ [] | some names ↦ sort_names names ]

unfoldable pub drain_logs : Tick → Map ℕ → List (String × String) × Map ℕ
unfolding drain_pods visited
drain_logs t offsets = drain_pods t.log_of (visited t) offsets

abbrev pub first_failure : List Condition → Option String
first_failure [] = none
first_failure (c ∷ cs) =
    let later = first_failure cs in if c.is_failed then some c.message else later

-- How a tick ends the loop, if it does: with a status and a message.
unfoldable pub verdict : JobRead → Option (String × String)
verdict (get_failed text) = some (agent_op_status_failed, "get job: " ++ text)
verdict (job_at succeeded conditions) =
    if ltb_ℤ (pos 0) succeeded
    then some (agent_op_status_succeeded, "")
    else elim (first_failure conditions) [
      | none ↦ none
      | some message ↦ some (agent_op_status_failed, message)
    ]

-- The logs are drained at a tick unless its Job cannot be read.
unfoldable pub drain_tick : Tick → Map ℕ → List (String × String) × Map ℕ
unfolding drain_logs
drain_tick t offsets = elim t.job [
  | get_failed _ ↦ ([], offsets)
  | job_at _ _ ↦ drain_logs t offsets
]

-- The loop. The ticks are those before the deadline of the context, behind which it times out.
unfoldable pub watch_job :
    (timeout : String) → List Tick → Map ℕ → List (String × String) × String × String
unfolding drain_tick verdict
watch_job timeout [] offsets = ([], agent_op_status_failed, "execution timed out after " ++ timeout)
watch_job timeout (t ∷ ts) offsets =
    let (chunks, offsets') = drain_tick t offsets in
    let (more, status, message) = watch_job timeout ts offsets' in
    elim (verdict t.job) [
      | none ↦ (join chunks more, status, message)
      | some (s, m) ↦ (chunks, s, m)
    ]
