-- ===== src/Rollouts/Changes.antt =====
-- internal/controller/rollout_controller.go: the values that the Rollout reconciler stores.
use Prim.Native.String.{◌++◌}
use software_distribution_pl.Prelude.{
  ℕ, ◌+◌, leb, ℤ, pos, leb_ℤ, int_eq, String, string_eq, ◌==◌, Bool, true, false, Option, none,
  some, length, Map, if◌then◌else◌,
}
use software_distribution_pl.Api.Meta.{Time, Duration}
use software_distribution_pl.Api.Rollout.{Rollout, RolloutPhase}
use software_distribution_pl.Canary.{
  Decision, next_weight, annotation, pause_start_annotation, parse_pause_start, since,
}
use software_distribution_pl.Rollouts.{health_check_interval, current_step}

-- The status of a Rollout that no reconcile has seen.
unfoldable pub first_sight : Rollout → Time → Rollout
first_sight ro now = elim ro.status.phase [
  | RolloutPhase.unset ↦ record ro {
    status = record (ro.status) {
      phase = RolloutPhase.progressing;
      current_step_index = 0;
      current_weight = pos 0;
      start_time = some now;
    };
  }
  | _ ↦ ro
]

-- The time of completion is set once.
abbrev pub completed : Option Time → Time → Option Time
completed none now = some now
completed (some t) now = some t

-- What a promote makes of the status.
unfoldable pub promoted : Rollout → String → Time → Rollout
promoted ro by now =
    let index = ro.status.current_step_index in
    if leb (length ro.spec.steps) index
    then record ro {
      status = record (ro.status) {
        phase = RolloutPhase.healthy;
        completion_time = completed ro.status.completion_time now;
        message = "promoted to completion" ++ by;
      };
    }
    else record ro {
      status = record (ro.status) {
        current_step_index = index + 1;
        current_weight = next_weight ro.spec index ro.status.current_weight;
        phase = RolloutPhase.progressing;
        message = "promoted" ++ by;
      };
    }

abbrev pub annotate : (Map String → Map String) → Rollout → Rollout
annotate f ro = record ro { meta = record (ro.meta) { annotations = f ro.meta.annotations } }

abbrev pub with_message : String → Rollout → Rollout
with_message message ro = record ro { status = record (ro.status) { message = message } }

abbrev pub is_healthy_or_degraded : RolloutPhase → Bool
is_healthy_or_degraded RolloutPhase.healthy = true
is_healthy_or_degraded RolloutPhase.degraded = true
is_healthy_or_degraded _ = false

abbrev pub is_set : Rollout → String → Bool
is_set ro name = annotation name ro.meta.annotations == "true"

-- The phases in which the reconciler raises an alert.
abbrev pub is_alerting : RolloutPhase → Bool
is_alerting RolloutPhase.degraded = true
is_alerting RolloutPhase.rolling_back = true
is_alerting RolloutPhase.failed = true
is_alerting RolloutPhase.rolled_back = true
is_alerting _ = false

-- The phases that set the time of completion.
abbrev pub is_complete : RolloutPhase → Bool
is_complete RolloutPhase.healthy = true
is_complete RolloutPhase.failed = true
is_complete RolloutPhase.rolled_back = true
is_complete _ = false

-- The status after an evaluation.
unfoldable pub decided : Rollout → Decision → Bool → Time → Rollout
decided ro d probed now = record ro {
  status = record (ro.status) {
    phase = d.phase;
    current_step_index = d.current_step_index;
    current_weight = d.current_weight;
    stable_replicas = d.stable_replicas;
    canary_replicas = d.canary_replicas;
    consecutive_failures = d.consecutive_failures;
    message = d.message;
    last_health_check_time = if probed then some now else ro.status.last_health_check_time;
    completion_time =
        if is_complete d.phase
        then completed ro.status.completion_time now
        else ro.status.completion_time;
  };
}

-- The Rollout that an operator's rollback ends as.
unfoldable pub aborted : Rollout → ℤ → Time → Rollout
aborted ro total now = record ro {
  status = record (ro.status) {
    phase = RolloutPhase.rolled_back;
    current_weight = pos 0;
    canary_replicas = pos 0;
    stable_replicas = total;
    completion_time = completed ro.status.completion_time now;
  };
}

-- A Decision with the zero values of the fields that are not given.
abbrev pub hold : RolloutPhase → ℕ → ℤ → ℤ → ℤ → String → Decision
hold phase index weight canary stable message = record {
  phase = phase;
  current_step_index = index;
  current_weight = weight;
  canary_replicas = canary;
  stable_replicas = stable;
  consecutive_failures = pos 0;
  requeue_after = pos 0;
  message = message;
}

-- The active probe is due.
unfoldable pub probe_due : Rollout → Time → Bool
probe_due ro now = elim ro.status.last_health_check_time [
  | none ↦ true
  | some last ↦ leb_ℤ health_check_interval (since now last)
]

-- The duration of a timed pause at the current step whose stamp cannot be read.
unfoldable pub unstamped_pause : (String → Option Time) → Rollout → Option Duration
unstamped_pause parse_time ro = elim (current_step ro) [
  | none ↦ none
  | some step ↦ elim step.pause [
    | none ↦ none
    | some pause ↦ elim pause.duration [
      | none ↦ none
      | some duration ↦
          elim (parse_pause_start parse_time
            (annotation pause_start_annotation ro.meta.annotations)) [
              | some stamp ↦ none
              | none ↦ some duration
            ]
    ]
  ]
]
