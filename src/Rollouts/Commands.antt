-- ===== src/Rollouts/Commands.antt =====
-- internal/controller/rollout_controller.go: the operator's commands.
use Prim.Native.String.{◌++◌}
use software_distribution_pl.Prelude.{
  int_eq, String, string_eq, ◌==◌, Bool, true, false, insert, erase, if◌then◌else◌,
}
use software_distribution_pl.Api.Rollout.{Rollout, RolloutPhase}
use software_distribution_pl.Api.Payloads.{action_pause, action_promote, action_rollback}
use software_distribution_pl.Kube.{Cluster, M, ◌>>=◌, ◌>>◌, pure}
use software_distribution_pl.Canary.{annotation}
use software_distribution_pl.Rollouts.{
  ann_rollout_action, ann_rollout_paused, ann_rollout_aborted, ann_rollout_operator,
  RolloutReconciler,
}
use software_distribution_pl.Rollouts.Changes.{
  promoted, annotate, with_message, is_healthy_or_degraded, is_set,
}
use software_distribution_pl.Rollouts.Actions.{time, save, patch_meta}

module _ (k : Cluster) (r : RolloutReconciler) where
  unfoldable pub apply_pause : Rollout → String → M Rollout
  apply_pause ro by =
      if is_healthy_or_degraded ro.status.phase
      then pure
          (with_message ("pause ignored: rollout already " ++ r.phase_text ro.status.phase) ro)
      else (patch_meta k r ro (annotate (insert ann_rollout_paused "true") ro) >>= λ got.
          pure (record got {
            status = record (got.status) { phase = RolloutPhase.paused; message = "paused" ++ by };
          }))

  unfoldable pub apply_promote : Rollout → String → M Rollout
  apply_promote ro by =
      if is_set ro ann_rollout_aborted
      then pure (with_message "promote ignored: rollout was rolled back" ro)
      else ((if is_set ro ann_rollout_paused
            then patch_meta k r ro (annotate (erase ann_rollout_paused) ro)
            else pure ro)
          >>= λ got. time k r >>= λ now. pure (promoted got by now))

  unfoldable pub apply_rollback : Rollout → String → M Rollout
  apply_rollback ro by =
      patch_meta k r ro
        (annotate (λ m. insert ann_rollout_aborted "true" (erase ann_rollout_paused m)) ro)
      >>= λ got. pure (record got {
        status = record (got.status) {
          phase = RolloutPhase.rolling_back;
          message = "rollback requested" ++ by;
        };
      })

  -- The switch over the command.
  unfoldable pub apply_action : String → Rollout → String → M Rollout
  apply_action action ro by =
      if action == action_pause
      then apply_pause ro by
      else if action == action_promote
      then apply_promote ro by
      else if action == action_rollback
      then apply_rollback ro by
      else pure (with_message ("ignored unknown rollout action " ++ action) ro)

  -- Whether there was a command. It is cleared before it is carried out.
  unfoldable pub apply_control_command : Rollout → M Bool
  apply_control_command ro =
      let action = annotation ann_rollout_action ro.meta.annotations in
      let operator = annotation ann_rollout_operator ro.meta.annotations in
      let by = if operator == "" then " by operator" else " by " ++ operator in
      if action == ""
      then pure false
      else (patch_meta k r ro
            (annotate (λ m. erase ann_rollout_operator (erase ann_rollout_action m)) ro)
          >>= λ cleared. apply_action action cleared by >>= λ done. save k r done >> pure true)
