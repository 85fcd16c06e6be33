-- ===== src/Tests/Delivery.antt =====
-- The theorems on the Rollout reconciler at the sample Rollouts.
use software_distribution_pl.Prelude.{
  leb, atoi, pos, ◌+ℤ◌, int32, ◌≡◌, refl, true, false, Option, none, some, String, [], ◌∷◌, lookup,
  arith,
}
use software_distribution_pl.Api.Meta.{Time}
use software_distribution_pl.Api.Rollout.{Rollout, RolloutPhase}
use software_distribution_pl.Kube.Counts.{count}
use software_distribution_pl.Canary.{
  evaluate, evaluate_weight, evaluate_unready, count_failure, pause_start_annotation,
  format_pause_start,
}
use software_distribution_pl.Canary.PauseStamp.{IsStamped}
use software_distribution_pl.Rollouts.{
  rollout_svc_target_port_env, RolloutReconciler, ann_rollout_aborted, ann_rollout_paused,
}
use software_distribution_pl.Rollouts.Changes.{unstamped_pause}
use software_distribution_pl.Rollouts.Walk.{follow}
use software_distribution_pl.Rollouts.Sizes.{is_oversized, follow-evaluate}
use software_distribution_pl.Rollouts.Control.{unstamped_pause_stale}
use software_distribution_pl.Tests.{rollout_at, calm}

abbrev format_time : Time → String
format_time t = "T"

abbrev parse_time : String → Option Time
parse_time s = some 500

abbrev rollout_wired : RolloutReconciler
rollout_wired = record {
  format_time = format_time;
  parse_time = parse_time;
  http = λ tr url timeout. some (record { status = 200; body = "" });
  floats = record { parse = λ text. none; at_most = λ a b. leb a b };
  prometheus_endpoint = "";
  canary_ingress_enabled = true;
  env_port = "";
  phase_text = λ p. "";
}

abbrev canary : Rollout
canary = rollout_at true 0 (pos 10) (pos 0) []

abbrev failing : Rollout
failing = rollout_at true 0 (pos 10) (pos 2) []

abbrev stopped : Rollout
stopped = rollout_at true 0 (pos 10) (pos 0) ((ann_rollout_aborted, "true") ∷ [])

abbrev held : Rollout
held = rollout_at true 0 (pos 10) (pos 0) ((ann_rollout_paused, "true") ∷ [])

abbrev lost : Rollout
lost = record canary { status = record (canary.status) { phase = RolloutPhase.rolled_back } }

follow-evaluate_example :
    count
      (is_oversized (pos 10))
      (follow
        (calm [] [])
        rollout_wired
        canary
        (evaluate parse_time 0 canary (pos 1) (pos 1) (pos 10) true)
        none
        true
        []).0
    ≡ 0
follow-evaluate_example =
    follow-evaluate (calm [] []) rollout_wired (pos 10) canary 0 (pos 1) (pos 1) true none true []
      (ground arith) (ground arith) (ground arith)

rolls_back :
    (evaluate parse_time 0 failing (pos 1) (pos 1) (pos 10) false).phase ≡ RolloutPhase.rolling_back
unfolding evaluate evaluate_weight evaluate_unready count_failure int32 ◌+ℤ◌
rolls_back = refl

-- The timed pause of step 1 with the stamp of step 0.
abbrev stale : Rollout
stale =
    rollout_at true 1 (pos 10) (pos 0)
      ((pause_start_annotation, format_pause_start format_time 0 500) ∷ [])

stale-IsStamped : IsStamped format_time parse_time stale (pos 60000000000) 0 500 500
unfolding lookup
stale-IsStamped = record {
  step = record { set_weight = none; pause = some (record { duration = some (pos 60000000000) }) };
  pause = record { duration = some (pos 60000000000) };
  current = refl;
  is_pause = refl;
  is_timed = refl;
  stamp = refl;
  law = refl;
  small = omega arith;
}

unstamped_pause_stale_example :
    (unstamped_pause parse_time stale ≡ none)
    × ((evaluate parse_time 900000000000 stale (pos 1) (pos 1) (pos 10) true).current_step_index
        ≡ 1)
unstamped_pause_stale_example =
    unstamped_pause_stale format_time parse_time stale (pos 60000000000) 0 500 500 stale-IsStamped
      (omega arith) 900000000000 (pos 1) (pos 1) (pos 10) true

-- The port of the environment is cut to 32 bits.
long_port : rollout_svc_target_port_env "4294967376" ≡ pos 80
unfolding rollout_svc_target_port_env atoi int32
long_port = refl
