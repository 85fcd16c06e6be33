-- ===== src/Tasks/Rollouts.antt =====
-- Deploy tasks in the TaskRun reconciler: the TaskRun follows its Rollout.
use software_distribution_pl.Prelude.{string_eq, ◌≡◌, ◌⊎◌, ◌↔◌, arith}
use software_distribution_pl.Api.Meta.{Time}
use software_distribution_pl.Api.Rollout.{Rollout, RolloutPhase}
use software_distribution_pl.Api.Pipeline.{TaskRunPhase}
use software_distribution_pl.Api.Task.{TaskRun}
use software_distribution_pl.Tasks.Changes.{mirror_rollout, finished}

-- A Rollout that has been given up.
abbrev pub IsLost : RolloutPhase → Type 0
IsLost p =
    (p ≡ RolloutPhase.degraded)
    ⊎ (p ≡ RolloutPhase.rolling_back)
    ⊎ (p ≡ RolloutPhase.failed)
    ⊎ (p ≡ RolloutPhase.rolled_back)

module _ (t : TaskRun) (ro : Rollout) (now : Time) where
  -- A Deploy task is given the phase Failed exactly when its Rollout is Degraded, RollingBack,
  -- Failed or RolledBack.
  mirror_rollout-failed_iff :
      ((mirror_rollout t ro now).status.phase ≡ TaskRunPhase.failed) ↔ IsLost ro.status.phase
  unfolding mirror_rollout finished
  mirror_rollout-failed_iff = (λ e. ground arith, λ e. ground arith)
