-- ===== src/Tests/Engine.antt =====
-- The theorems on the canary engine at the sample Rollouts.
use software_distribution_pl.Prelude.{
  ℕ, ◌<◌, ◌+ℤ◌, int32, lookup, pos, ◌≡◌, ◌≢◌, refl, true, false, Option, none, some, String, [],
  ◌∷◌, arith,
}
use software_distribution_pl.Api.Meta.{Time}
use software_distribution_pl.Api.Rollout.{RolloutPhase, Rollout}
use software_distribution_pl.Canary.{
  evaluate, evaluate_weight, evaluate_unready, count_failure, parse_pause_start, format_pause_start,
  pause_start_annotation,
}
use software_distribution_pl.Canary.Split.{IsShare, evaluate-IsShare}
use software_distribution_pl.Canary.Steps.{MayAdvance, evaluate-MayAdvance}
use software_distribution_pl.Canary.PauseStamp.{
  IsStamped, parse_pause_start-format_pause_start, evaluate_stale_stamp,
}
use software_distribution_pl.Tests.{rollout_at}

-- A clock whose one text is read back as the time 500.
abbrev format_time : Time → String
format_time t = "T"

abbrev parse_time : String → Option Time
parse_time s = some 500

abbrev canary : Rollout
canary = rollout_at true 0 (pos 10) (pos 0) []

-- The third failed check at ten per cent.
abbrev failing : Rollout
failing = rollout_at true 0 (pos 10) (pos 2) []

abbrev failing_by_hand : Rollout
failing_by_hand = rollout_at false 0 (pos 10) (pos 2) []

-- The timed pause with the stamp of step i.
abbrev pausing : ℕ → Rollout
pausing i =
    rollout_at true 1 (pos 10) (pos 0)
      ((pause_start_annotation, format_pause_start format_time i 500) ∷ [])

evaluate-IsShare_example :
    IsShare (pos 10) (evaluate parse_time 0 canary (pos 1) (pos 1) (pos 10) true)
evaluate-IsShare_example =
    evaluate-IsShare canary (pos 10) (ground arith) (ground arith) (ground arith) parse_time 0
      (pos 1) (pos 1) true

advances : (evaluate parse_time 0 canary (pos 1) (pos 1) (pos 10) true).current_step_index ≢ 0
unfolding evaluate evaluate_weight
advances = ground arith

evaluate-MayAdvance_example :
    MayAdvance parse_time 0 canary
      (pos 1)
      (pos 1)
      (pos 10)
      true
      (record { set_weight = some (pos 10); pause = none })
evaluate-MayAdvance_example =
    evaluate-MayAdvance parse_time 0 canary (pos 1) (pos 1) (pos 10) true
      (record { set_weight = some (pos 10); pause = none }) refl advances

rolls_back :
    (evaluate parse_time 0 failing (pos 1) (pos 1) (pos 10) false).phase ≡ RolloutPhase.rolling_back
unfolding evaluate evaluate_weight evaluate_unready count_failure int32 ◌+ℤ◌
rolls_back = refl

fails :
    (evaluate parse_time 0 failing_by_hand (pos 1) (pos 1) (pos 10) false).phase
    ≡ RolloutPhase.failed
unfolding evaluate evaluate_weight evaluate_unready count_failure int32 ◌+ℤ◌
fails = refl

parse_pause_start-format_pause_start_example :
    parse_pause_start parse_time (format_pause_start format_time 1 500) ≡ some (pos 1, 500)
parse_pause_start-format_pause_start_example =
    parse_pause_start-format_pause_start format_time parse_time 1 500 500 (omega arith) refl

pausing-IsStamped :
    (i : ℕ)
    → i < 2147483648
    → IsStamped format_time parse_time (pausing i) (pos 60000000000) i 500 500
unfolding lookup
pausing-IsStamped i h = record {
  step = record { set_weight = none; pause = some (record { duration = some (pos 60000000000) }) };
  pause = record { duration = some (pos 60000000000) };
  current = refl;
  is_pause = refl;
  is_timed = refl;
  stamp = refl;
  law = refl;
  small = h;
}

evaluate_stale_stamp_example :
    (evaluate parse_time 60000000500 (pausing 0) (pos 1) (pos 1) (pos 10) true).current_step_index
    ≡ 1
evaluate_stale_stamp_example =
    evaluate_stale_stamp format_time parse_time (pausing 0) (pos 60000000000) 0 500 500
      (pausing-IsStamped 0 (omega arith)) 60000000500 (pos 1) (pos 1) (pos 10) true (omega arith)
