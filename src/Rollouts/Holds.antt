-- ===== src/Rollouts/Holds.antt =====
-- The holds of the Rollout reconciler: rolled back by an operator, paused by an operator, finished.
use software_distribution_pl.Prelude.{
  pos, nat_eq, int_eq, eq_iff, string_eq, ◌==◌, ◌≡◌, refl, Bool, true, false, not, ◌&&◌, arith,
}
use software_distribution_pl.Api.Rollout.{Rollout, RolloutPhase}
use software_distribution_pl.Kube.{Cluster, Trace, Call, ok, update_rollout_status, set_weight}
use software_distribution_pl.Kube.Counts.{
  count, Avoids, pure-Avoids, emit-Avoids, >>=-Avoids, >>-Avoids, read-Avoids,
}
use software_distribution_pl.Canary.{annotation}
use software_distribution_pl.Rollouts.{
  RolloutReconciler, ann_rollout_action, ann_rollout_aborted, ann_rollout_paused,
  is_failed_or_rolled_back, health_check_interval,
}
use software_distribution_pl.Rollouts.Changes.{is_set, aborted, first_sight}
use software_distribution_pl.Rollouts.Commands.{apply_control_command}
use software_distribution_pl.Rollouts.Quiet.{
  IsQuiet, ensure_workload-Avoids, ensure_canary-Avoids, apply_decision-Avoids,
}
use software_distribution_pl.Rollouts.Walk.{
  hold_aborted, hold_paused, reconcile_held, reconcile_rollout,
}

abbrev is_rolled_back : RolloutPhase → Bool
is_rolled_back RolloutPhase.rolled_back = true
is_rolled_back _ = false

abbrev is_paused : RolloutPhase → Bool
is_paused RolloutPhase.paused = true
is_paused _ = false

-- A write of a status that is not RolledBack with no traffic and no replicas on the canary, or a new value of the
-- weight gauge.
abbrev pub is_revival : Call → Bool
is_revival (update_rollout_status ro) = not (
    is_rolled_back ro.status.phase
    && ro.status.current_weight == pos 0
    && ro.status.canary_replicas == pos 0)
is_revival (set_weight weight) = true
is_revival _ = false

-- A write of a status that is not Paused or that has left the step or the weight of the given one.
abbrev pub is_move : Rollout → Call → Bool
is_move ro (update_rollout_status ro') = not (
    is_paused ro'.status.phase
    && ro'.status.current_step_index == ro.status.current_step_index
    && ro'.status.current_weight == ro.status.current_weight)
is_move ro _ = false

revival-IsQuiet : IsQuiet is_revival
revival-IsQuiet = record {
  deployment = λ dep. refl;
  service = λ key app port. refl;
  ingress = λ key path weight. refl;
  weight = λ key weight. refl;
}

move-IsQuiet : (ro : Rollout) → IsQuiet (is_move ro)
move-IsQuiet ro = record {
  deployment = λ dep. refl;
  service = λ key app port. refl;
  ingress = λ key path weight. refl;
  weight = λ key weight. refl;
}

module _ (k : Cluster) (r : RolloutReconciler) where
  hold_aborted-Avoids : (ro : Rollout) → Avoids is_revival (hold_aborted k r ro)
  unfolding hold_aborted aborted
  hold_aborted-Avoids ro =
      >>=-Avoids (ensure_workload-Avoids k r is_revival revival-IsQuiet ro) (λ total.
        >>=-Avoids (ensure_canary-Avoids k r is_revival revival-IsQuiet ro) (λ dep.
          >>-Avoids
            (apply_decision-Avoids k r is_revival revival-IsQuiet ro _ dep (λ b. refl) (λ b. refl))
            (>>=-Avoids (read-Avoids (λ tr. ok (k.now tr))) (λ now.
              >>-Avoids (emit-Avoids k (update_rollout_status (aborted ro total now)) refl)
                (pure-Avoids (pos 0))))))

  hold_paused-Avoids : (ro : Rollout) → Avoids (is_move ro) (hold_paused k r ro)
  unfolding hold_paused
  hold_paused-Avoids ro =
      >>=-Avoids (ensure_workload-Avoids k r (is_move ro) (move-IsQuiet ro) ro) (λ total.
        >>=-Avoids (ensure_canary-Avoids k r (is_move ro) (move-IsQuiet ro) ro) (λ dep.
          >>-Avoids
            (apply_decision-Avoids k r (is_move ro) (move-IsQuiet ro) ro _ dep (λ b. refl)
              (λ b. refl))
            (>>-Avoids (emit-Avoids k _ (ground arith)) (pure-Avoids health_check_interval))))

  -- With the annotation of an operator rollback, the part of a reconcile after the commands stores
  -- no status but RolledBack at weight 0 with no canary replica, whatever the cluster answers, and it
  -- leaves the weight gauge as it is.
  pub reconcile_held-aborted :
      (ro : Rollout) (tr : Trace)
      → is_set ro ann_rollout_aborted ≡ true
      → count is_revival (reconcile_held k r ro tr).0 ≡ count is_revival tr
  unfolding reconcile_held
  reconcile_held-aborted ro tr h = rw (h, reconcile_held) ((hold_aborted-Avoids ro).same tr)

  -- With the annotation of an operator pause and without that of a rollback, the part of a
  -- reconcile after the commands stores no status but Paused at the present step and weight,
  -- whatever the cluster answers.
  reconcile_held-paused :
      (ro : Rollout) (tr : Trace)
      → is_set ro ann_rollout_aborted ≡ false
      → is_set ro ann_rollout_paused ≡ true
      → count (is_move ro) (reconcile_held k r ro tr).0 ≡ count (is_move ro) tr
  unfolding reconcile_held
  reconcile_held-paused ro tr a h =
      rw (a, reconcile_held) (rw (h, reconcile_held) ((hold_paused-Avoids ro).same tr))

  -- A reconcile of a Failed or RolledBack Rollout with no command and no hold annotation makes no
  -- call and asks for no requeue.
  reconcile_rollout_terminal :
      (ro : Rollout) (tr : Trace)
      → is_failed_or_rolled_back ro.status.phase ≡ true
      → annotation ann_rollout_action ro.meta.annotations ≡ ""
      → is_set ro ann_rollout_aborted ≡ false
      → is_set ro ann_rollout_paused ≡ false
      → reconcile_rollout k r ro tr ≡ (tr, ok (pos 0))
  unfolding reconcile_rollout reconcile_held first_sight apply_control_command
  reconcile_rollout_terminal ro tr h action a p =
      ground (arith, eq_iff (annotation ann_rollout_action ro.meta.annotations) "")
