-- ===== src/Canary.antt =====
-- pkg/canary/engine.go: the pure decision logic of progressive delivery. `time.Parse` and
-- `time.Time.Format` for RFC 3339 are parameters; the clock is the argument `now`.
pub mod Split
pub mod Steps
pub mod Verdict
pub mod PauseStamp
use Prim.Native.String.{◌++◌}
use software_distribution_pl.Prelude.{
  ℕ, ◌+◌, ℤ, pos, ◌+ℤ◌, ◌-ℤ◌, ◌*ℤ◌, leb_ℤ, ltb_ℤ, sub_ℕ, quot_ℤ, int32, int64, int_eq, nat_eq,
  string_eq, String, Bool, true, false, not, ◌&&◌, Option, none, some, get_elem?, lookup, Map, ◌==◌,
  if◌then◌else◌, cut, atoi, decimal,
}
use software_distribution_pl.Api.Meta.{Time, Duration}
use software_distribution_pl.Api.Rollout.{
  RolloutPhase, progressing, paused, healthy, rolling_back, failed, PauseStep, CanaryStep,
  RolloutSpec, Rollout,
}

pub record Decision : Type 0 where
  pub phase : RolloutPhase
  pub current_step_index : ℕ
  pub current_weight : ℤ
  pub canary_replicas : ℤ
  pub stable_replicas : ℤ
  pub consecutive_failures : ℤ
  pub requeue_after : Duration
  pub message : String

-- The product is computed in int64, which two int32 factors never leave.
unfoldable pub weight_replicas : ℤ → ℤ → ℤ
weight_replicas weight total =
    if leb_ℤ total (pos 0) then pos 0 else int32 (quot_ℤ (weight *ℤ total) 100)

abbrev pub second : ℤ
second = pos 1000000000

unfoldable pub health_interval : RolloutSpec → Duration
health_interval spec =
    if leb_ℤ spec.health_check.interval_seconds (pos 0)
    then pos 30000000000
    else int64 (spec.health_check.interval_seconds *ℤ second)

abbrev pub pause_start_annotation : String
pause_start_annotation = "sdp.io/pause-start"

-- A missing key of a Go map of texts reads as the empty text.
unfoldable pub annotation : String → Map String → String
annotation k m = elim (lookup k m) [ none ↦ "" | some v ↦ v ]

-- The stable Deployment takes what the canary leaves, in int32.
abbrev pub stable_of : ℤ → ℤ → ℤ
stable_of canary total = int32 (total -ℤ canary)

unfoldable pub format_pause_start : (Time → String) → ℕ → Time → String
format_pause_start format_time step_index t = decimal step_index ++ "|" ++ format_time t

-- The step index is converted to int32, as the source does.
unfoldable pub parse_pause_start : (String → Option Time) → String → Option (ℤ × Time)
parse_pause_start parse_time s = elim (cut b'|' s) [
  | none ↦ none
  | some (idx, ts) ↦ elim (atoi idx) [
    | none ↦ none
    | some n ↦ elim (parse_time ts) [ none ↦ none | some t ↦ some (int32 n, t) ]
  ]
]

-- `time.Since(started)` at the time `now`.
abbrev pub since : Time → Time → Duration
since now started = sub_ℕ now started

unfoldable pub rollback_decision : Rollout → ℤ → Decision
rollback_decision ro total = record {
  phase = rolling_back;
  current_step_index = ro.status.current_step_index;
  current_weight = pos 0;
  canary_replicas = pos 0;
  stable_replicas = total;
  consecutive_failures = int32 (ro.status.consecutive_failures +ℤ pos 1);
  requeue_after = pos 0;
  message = "health check failed, rolling back";
}

-- A Decision that keeps the failure count at its zero value and asks for no requeue.
abbrev decide_at : RolloutPhase → ℕ → ℤ → ℤ → String → Decision
decide_at phase index weight total message = record {
  phase = phase;
  current_step_index = index;
  current_weight = weight;
  canary_replicas = weight_replicas weight total;
  stable_replicas = stable_of (weight_replicas weight total) total;
  consecutive_failures = pos 0;
  requeue_after = pos 0;
  message = message;
}

-- The test of a timed pause: the stamp is of this step, its duration has passed, the canary is healthy.
unfoldable pub pause_elapsed : (String → Option Time) → Time → Rollout → Duration → Bool → Bool
unfolding parse_pause_start annotation
pause_elapsed parse_time now ro duration is_healthy =
    elim (parse_pause_start parse_time (annotation pause_start_annotation ro.meta.annotations)) [
      | none ↦ false
      | some (idx, started) ↦
          idx == pos ro.status.current_step_index
          && leb_ℤ duration (since now started)
          && is_healthy
    ]

-- The branch of a pause step.
unfoldable pub evaluate_pause :
    (String → Option Time) → Time → Rollout → PauseStep → ℤ → Bool → Decision
evaluate_pause parse_time now ro pause total is_healthy =
    let d =
      decide_at paused ro.status.current_step_index ro.status.current_weight total
        "paused at step" in
    elim pause.duration [
      | none ↦ d
      | some duration ↦
          let held = record d { requeue_after = duration } in
          if pause_elapsed parse_time now ro duration is_healthy
          then record held {
            phase = progressing;
            current_step_index = ro.status.current_step_index + 1;
            message = "pause elapsed, advancing";
          }
          else held
    ]

-- The failure count at a step that is not ready: only pods that are up and fail the check count.
unfoldable pub count_failure : ℤ → ℤ → ℤ → Bool → ℤ
count_failure failures ready desired is_healthy =
    if (ltb_ℤ (pos 0) desired && leb_ℤ desired ready) && not is_healthy
    then int32 (failures +ℤ pos 1)
    else failures

-- The branch of a weight step at whose target the canary is not ready.
unfoldable pub evaluate_unready : Rollout → ℤ → ℤ → ℤ → ℤ → Bool → Decision
unfolding rollback_decision count_failure
evaluate_unready ro target ready desired total is_healthy =
    let cf = count_failure ro.status.consecutive_failures ready desired is_healthy in
    let spec = ro.spec in
    let past =
      ltb_ℤ (pos 0) spec.health_check.failure_threshold
      && leb_ℤ spec.health_check.failure_threshold cf in
    if spec.auto_rollback && past
    then record (rollback_decision ro total) {
      canary_replicas = pos 0;
      stable_replicas = total;
      message = "health check failed past threshold, rolling back";
    }
    else if not spec.auto_rollback && past
    then record (decide_at failed ro.status.current_step_index target total
        "health check failed past threshold, rollout failed") { consecutive_failures = cf }
    else record (decide_at progressing ro.status.current_step_index target total
        "waiting for canary health") {
          consecutive_failures = cf;
          requeue_after = health_interval spec;
        }

-- The weight that is set when step i is passed: that of the next step, if it sets one.
unfoldable pub next_weight : RolloutSpec → ℕ → ℤ → ℤ
next_weight spec i weight = elim (get_elem? spec.steps (i + 1)) [
  | none ↦ weight
  | some nxt ↦ elim nxt.set_weight [ none ↦ weight | some w ↦ w ]
]

-- The branch of a weight step with target `target`.
unfoldable pub evaluate_weight : Rollout → ℤ → ℤ → ℤ → ℤ → Bool → Decision
unfolding evaluate_unready next_weight
evaluate_weight ro target ready desired total is_healthy =
    let index = ro.status.current_step_index in
    let next = next_weight ro.spec index target in
    if not (ro.status.current_weight == target)
    then record (decide_at progressing index target total "scaling to weight") {
      requeue_after = health_interval ro.spec;
    }
    else if not (ltb_ℤ (pos 0) desired && leb_ℤ desired ready && is_healthy)
    then evaluate_unready ro target ready desired total is_healthy
    else record (decide_at progressing (index + 1) next total "healthy at weight, advancing") {
      requeue_after = health_interval ro.spec;
    }

-- `get_elem?` is `none` exactly where the source tests `CurrentStepIndex >= len(Steps)`.
unfoldable pub evaluate : (String → Option Time) → Time → Rollout → ℤ → ℤ → ℤ → Bool → Decision
unfolding evaluate_pause evaluate_weight
evaluate parse_time now ro ready desired total ok =
    let index = ro.status.current_step_index in
    let weight = ro.status.current_weight in
    elim (get_elem? ro.spec.steps index) [
      | none ↦ decide_at healthy index weight total "all steps complete"
      | some step ↦ elim step.pause [
        | some pause ↦ evaluate_pause parse_time now ro pause total ok
        | none ↦ elim step.set_weight [
          | none ↦
              decide_at progressing (index + 1) weight total "step had no setWeight/pause, skipping"
          | some target ↦ evaluate_weight ro target ready desired total ok
        ]
      ]
    ]
