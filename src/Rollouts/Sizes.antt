-- ===== src/Rollouts/Sizes.antt =====
-- The sizes that the automatic walk gives the two Deployments.
use software_distribution_pl.Prelude.{
  ℤ, pos, leb_ℤ, ◌≤ℤ◌, ◌+ℤ◌, ◌≡◌, refl, Bool, false, not, ◌&&◌, Option, none, some, arith,
}
use software_distribution_pl.Api.Meta.{Time}
use software_distribution_pl.Api.Rollout.{Rollout}
use software_distribution_pl.Kube.{
  Cluster, Trace, Call, Deployment, ok, patch_deployment, update_rollout_status, alert, set_weight,
}
use software_distribution_pl.Kube.Counts.{
  count, Avoids, pure-Avoids, emit-Avoids, note-Avoids, if-Avoids, >>=-Avoids, >>-Avoids,
  read-Avoids,
}
use software_distribution_pl.Canary.{Decision, evaluate}
use software_distribution_pl.Canary.Split.{AllWeights, IsWeight, IsCount, IsShare, evaluate-IsShare}
use software_distribution_pl.Rollouts.{RolloutReconciler}
use software_distribution_pl.Rollouts.Changes.{is_alerting, decided}
use software_distribution_pl.Rollouts.Quiet.{IsQuiet, apply_decision-Avoids}
use software_distribution_pl.Rollouts.Walk.{follow}

abbrev is_within : ℤ → Option ℤ → Bool
is_within t none = false
is_within t (some n) = leb_ℤ (pos 0) n && leb_ℤ n t

-- A write that gives a Deployment no size or one outside 0..t, or a status whose weight is no percentage or whose
-- replica counts are outside 0..t.
abbrev pub is_oversized : ℤ → Call → Bool
is_oversized t (patch_deployment base changed) = not (is_within t changed.replicas)
is_oversized t (update_rollout_status ro) = not (
    is_within (pos 100) (some ro.status.current_weight)
    && is_within t (some ro.status.canary_replicas)
    && is_within t (some ro.status.stable_replicas))
is_oversized t _ = false

oversized-IsQuiet : (t : ℤ) → IsQuiet (is_oversized t)
oversized-IsQuiet t = record {
  deployment = λ dep. refl;
  service = λ key app port. refl;
  ingress = λ key path weight. refl;
  weight = λ key weight. refl;
}

-- Of two parts that are not negative each is at most their sum.
stable-le : (t : ℤ) (d : Decision) → IsShare t d → d.stable_replicas ≤ℤ t
unfolding ◌+ℤ◌
stable-le t d h = ground (arith, h.split.total, h.split.canary_nonneg)

module _ (k : Cluster) (r : RolloutReconciler) (t : ℤ) where
  follow-Avoids :
      (ro : Rollout) (d : Decision) (dep : Option Deployment) (probed : Bool)
      → IsShare t d
      → Avoids (is_oversized t) (follow k r ro d dep probed)
  unfolding follow decided
  follow-Avoids ro d dep probed h =
      >>-Avoids
        (apply_decision-Avoids k r (is_oversized t) (oversized-IsQuiet t) ro d dep
          (λ b. ground (arith, stable-le t d h, h.split.stable_nonneg))
          (λ b. ground (arith, h.split.canary_le, h.split.canary_nonneg)))
        (>>=-Avoids (read-Avoids (λ tr. ok (k.now tr))) (λ now.
          >>-Avoids (note-Avoids (set_weight d.current_weight) refl) (
            >>-Avoids
              (if-Avoids (is_alerting d.phase)
                (note-Avoids (alert "rollout" ro.meta.name d.message) refl) (pure-Avoids tt))
              (>>-Avoids
                (emit-Avoids k (update_rollout_status (decided ro d probed now)) (
                  ground (
                    arith,
                    stable-le t d h,
                    h.split.stable_nonneg,
                    h.split.canary_le,
                    h.split.canary_nonneg,
                    h.is_weight.0,
                    h.is_weight.1,
                  )))
                (pure-Avoids d.requeue_after)))))

  -- If the weights of the plan and the present weight are percentages and the total is a replica
  -- count, carrying out and storing what Evaluate decides patches a Deployment only to a size
  -- between 0 and the total and stores only a percentage and replica counts between 0 and the
  -- total, whatever the cluster answers.
  pub follow-evaluate :
      (ro : Rollout) (now : Time) (ready desired : ℤ) (healthy : Bool) (dep : Option Deployment)
      (probed : Bool) (tr : Trace)
      → AllWeights ro.spec.steps
      → IsWeight ro.status.current_weight
      → IsCount t
      → count
          (is_oversized t)
          (follow k r ro (evaluate r.parse_time now ro ready desired t healthy) dep probed tr).0
        ≡ count (is_oversized t) tr
  follow-evaluate ro now ready desired healthy dep probed tr plan weight total =
      (follow-Avoids ro (evaluate r.parse_time now ro ready desired t healthy) dep probed
          (evaluate-IsShare ro t plan weight total r.parse_time now ready desired healthy)).same
        tr
