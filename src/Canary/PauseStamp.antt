-- ===== src/Canary/PauseStamp.antt =====
-- The annotation that gives a timed pause its clock.
use software_distribution_pl.Prelude.{
  ℕ, ◌+◌, ◌<◌, ℤ, pos, leb_ℤ, ◌≤ℤ◌, int_eq, int32-pos, ◌==◌, ◌≡◌, ◌≢◌, ◌↔◌, ◌&&◌, if◌then◌else◌,
  Bool-cases, inl, inr, Bool, true, Option, some, lookup, get_elem?, String, cut-decimal,
  atoi-decimal, arith,
}
use software_distribution_pl.Api.Meta.{Time, Duration}
use software_distribution_pl.Api.Rollout.{PauseStep, Rollout, CanaryStep}
use software_distribution_pl.Canary.{
  Decision, evaluate, evaluate_pause, pause_elapsed, format_pause_start, parse_pause_start,
  pause_start_annotation, annotation, since,
}

module _ (format_time : Time → String) (parse_time : String → Option Time) where
  -- For a step index below 2^31 and a time that the time format reads back, ParsePauseStart reads
  -- what FormatPauseStart writes as that index and that time.
  pub parse_pause_start-format_pause_start :
      (index : ℕ) (t t' : Time)
      → index < 2147483648
      → parse_time (format_time t) ≡ some t'
      → parse_pause_start parse_time (format_pause_start format_time index t) ≡ some (pos index, t')
  unfolding parse_pause_start format_pause_start
  parse_pause_start-format_pause_start index t t' small law =
      rw (cut-decimal index (format_time t), parse_pause_start)
        (rw (atoi-decimal index (omega arith), parse_pause_start)
          (rw (law, parse_pause_start) (rw (int32-pos index small))))

  -- A timed pause at step `pause_index` that carries the stamp of step `index`, made at time t.
  pub record IsStamped (ro : Rollout) (duration : Duration) (index : ℕ) (t t' : Time) : Type 0 where
    pub step : CanaryStep
    pub pause : PauseStep
    pub current : get_elem? ro.spec.steps ro.status.current_step_index ≡ some step
    pub is_pause : step.pause ≡ some pause
    pub is_timed : pause.duration ≡ some duration
    pub stamp :
        lookup pause_start_annotation ro.meta.annotations
        ≡ some (format_pause_start format_time index t)
    pub law : parse_time (format_time t) ≡ some t'
    pub small : index < 2147483648

  module _ (ro : Rollout) (duration : Duration) (index : ℕ) (t t' : Time)
      (h : IsStamped ro duration index t t') (now : Time) (ready desired total : ℤ)
      (ok : Bool) where
    abbrev decision : Decision
    decision = evaluate parse_time now ro ready desired total ok

    pause_elapsed_lem :
        pause_elapsed parse_time now ro duration ok
        ≡ (pos index == pos ro.status.current_step_index && leb_ℤ duration (since now t') && ok)
    unfolding pause_elapsed annotation
    pause_elapsed_lem =
        rw (h.stamp, pause_elapsed, annotation)
          (rw (parse_pause_start-format_pause_start index t t' h.small h.law))

    decision_lem : decision ≡ evaluate_pause parse_time now ro h.pause total ok
    unfolding evaluate
    decision_lem = rw (h.current, evaluate) (rw (h.is_pause, evaluate))

    step_index_lem : decision.current_step_index ≡ (
        if pause_elapsed parse_time now ro duration ok
        then ro.status.current_step_index + 1
        else ro.status.current_step_index)
    unfolding evaluate_pause
    step_index_lem = rw decision_lem (
        rw (h.is_timed, evaluate_pause)
          (elim (Bool-cases (pause_elapsed parse_time now ro duration ok)) [
            | inl e ↦ rw (e, evaluate_pause)
            | inr e ↦ rw (e, evaluate_pause)
          ]))

    -- At a timed pause with the stamp of its own step, Evaluate goes on to the next step exactly
    -- when the duration has passed since the stamped time and the canary is healthy.
    pub evaluate_resumes_iff :
        index ≡ ro.status.current_step_index
        → (decision.current_step_index ≡ ro.status.current_step_index + 1)
          ↔ (duration ≤ℤ since now t') × (ok ≡ true)
    evaluate_resumes_iff own =
        rw step_index_lem (rw pause_elapsed_lem ((λ e. ground arith), (λ e. ground arith)))

    -- A stamp of another step holds the pause for ever: no time and no health makes the engine go on.
    pub evaluate_stale_stamp :
        index ≢ ro.status.current_step_index
        → decision.current_step_index ≡ ro.status.current_step_index
    evaluate_stale_stamp other = rw step_index_lem (rw pause_elapsed_lem (ground arith))
