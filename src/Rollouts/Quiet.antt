-- ===== src/Rollouts/Quiet.antt =====
-- The actions of the Rollout reconciler make no call of a kind, but for what they scale to.
use software_distribution_pl.Prelude.{
  ℤ, int_eq, String, string_eq, ◌≡◌, Bool, false, Option, none, some,
}
use software_distribution_pl.Api.Meta.{ObjectKey}
use software_distribution_pl.Api.Rollout.{Rollout}
use software_distribution_pl.Kube.{
  Cluster, Call, not_found, already_exists, other, api, invalid, Result, ok, err, Deployment,
  IngressSpec, create_deployment, patch_deployment, create_service, create_ingress, patch_ingress,
}
use software_distribution_pl.Kube.Counts.{
  Avoids, avoids, pure-Avoids, emit-Avoids, ignore-Avoids, >>=-Avoids, >>-Avoids, read-Avoids,
  if-Avoids,
}
use software_distribution_pl.Canary.{Decision}
use software_distribution_pl.Rollouts.{RolloutReconciler, has_replicas}
use software_distribution_pl.Rollouts.Actions.{
  get_stable, create_stable, take_canary, take_service, take_ingress, ensure_workload,
  create_canary, ensure_canary, scale_deployment, ensure_service, ensure_canary_ingress,
  apply_decision, scale_if_found,
}

-- A kind of call that creates nothing and sets no weight of an Ingress.
pub record IsQuiet (p : Call → Bool) : Type 0 where
  pub deployment : (dep : Deployment) → p (create_deployment dep) ≡ false
  pub service :
      (key : ObjectKey) (app : String) (port : ℤ) → p (create_service key app port) ≡ false
  pub ingress :
      (key : ObjectKey) (spec : IngressSpec) (weight : ℤ)
      → p (create_ingress key spec weight) ≡ false
  pub weight : (key : ObjectKey) (weight : ℤ) → p (patch_ingress key weight) ≡ false

module _ (k : Cluster) (r : RolloutReconciler) (p : Call → Bool) (quiet : IsQuiet p) where
  pub create_stable-Avoids :
      (ro : Rollout) (total : ℤ) (dep : Option Deployment)
      → Avoids p (create_stable k r ro total dep)
  unfolding create_stable
  create_stable-Avoids ro total (some dep) = pure-Avoids tt
  create_stable-Avoids ro total none = ignore-Avoids (emit-Avoids k _ (quiet.deployment _))

  pub get_stable-Avoids : (ro : Rollout) → Avoids p (get_stable k r ro)
  unfolding get_stable
  get_stable-Avoids ro = read-Avoids _

  pub ensure_workload-Avoids : (ro : Rollout) → Avoids p (ensure_workload k r ro)
  unfolding ensure_workload
  ensure_workload-Avoids ro = search (avoids, get_stable-Avoids, create_stable-Avoids) depth 8

  create_canary-Avoids : (dep : Deployment) → Avoids p (create_canary k r dep)
  unfolding create_canary
  create_canary-Avoids dep = record {
    same = (emit-Avoids k (create_deployment dep) (quiet.deployment dep)).same;
  }

  take_canary-Avoids : (ro : Rollout) (got : Result Deployment) → Avoids p (take_canary k r ro got)
  unfolding take_canary
  take_canary-Avoids ro (ok dep) = pure-Avoids (some dep)
  take_canary-Avoids ro (err (api not_found)) = create_canary-Avoids _
  take_canary-Avoids ro (err (api already_exists)) = pure-Avoids none
  take_canary-Avoids ro (err (api other)) = pure-Avoids none
  take_canary-Avoids ro (err (invalid s)) = pure-Avoids none

  pub ensure_canary-Avoids : (ro : Rollout) → Avoids p (ensure_canary k r ro)
  unfolding ensure_canary
  ensure_canary-Avoids ro = search (avoids, take_canary-Avoids) depth 8

  take_service-Avoids :
      (ro : Rollout) (stable : Option Deployment) (got : Result (Unit {0}))
      → Avoids p (take_service k r ro stable got)
  unfolding take_service
  take_service-Avoids ro stable (ok tt) = pure-Avoids tt
  take_service-Avoids ro stable (err (api not_found)) =
      ignore-Avoids (emit-Avoids k _ (quiet.service _ _ _))
  take_service-Avoids ro stable (err (api already_exists)) = pure-Avoids tt
  take_service-Avoids ro stable (err (api other)) = pure-Avoids tt
  take_service-Avoids ro stable (err (invalid s)) = pure-Avoids tt

  ensure_service-Avoids :
      (ro : Rollout) (stable : Option Deployment) → Avoids p (ensure_service k r ro stable)
  unfolding ensure_service
  ensure_service-Avoids ro stable = search (avoids, take_service-Avoids) depth 8

  take_ingress-Avoids :
      (ro : Rollout) (weight : ℤ) (got : Result (Unit {0}))
      → Avoids p (take_ingress k r ro weight got)
  unfolding take_ingress
  take_ingress-Avoids ro weight (ok tt) = ignore-Avoids (emit-Avoids k _ (quiet.weight _ _))
  take_ingress-Avoids ro weight (err (api not_found)) =
      ignore-Avoids (emit-Avoids k _ (quiet.ingress _ _ _))
  take_ingress-Avoids ro weight (err (api already_exists)) = pure-Avoids tt
  take_ingress-Avoids ro weight (err (api other)) = pure-Avoids tt
  take_ingress-Avoids ro weight (err (invalid s)) = pure-Avoids tt

  ensure_canary_ingress-Avoids :
      (ro : Rollout) (weight : ℤ) → Avoids p (ensure_canary_ingress k r ro weight)
  unfolding ensure_canary_ingress
  ensure_canary_ingress-Avoids ro weight = search (avoids, take_ingress-Avoids) depth 8

  -- Scaling to n is no call of the kind.
  abbrev pub MayScale : ℤ → Type 0
  MayScale n =
      (base : Deployment) → p (patch_deployment base (record base { replicas = some n })) ≡ false

  scale_if_found-Avoids :
      (n : ℤ) (dep : Option Deployment) → MayScale n → Avoids p (scale_if_found k r n dep)
  unfolding scale_if_found scale_deployment
  scale_if_found-Avoids n none h = pure-Avoids tt
  scale_if_found-Avoids n (some dep) h =
      if-Avoids (has_replicas dep n) (pure-Avoids tt) (ignore-Avoids (emit-Avoids k _ (h dep)))

  pub apply_decision-Avoids :
      (ro : Rollout) (d : Decision) (dep : Option Deployment)
      → MayScale d.stable_replicas
      → MayScale d.canary_replicas
      → Avoids p (apply_decision k r ro d dep)
  unfolding apply_decision
  apply_decision-Avoids ro d dep hs hc = >>=-Avoids (get_stable-Avoids ro) (λ stable.
      >>-Avoids (scale_if_found-Avoids d.stable_replicas stable hs) (
        >>-Avoids (scale_if_found-Avoids d.canary_replicas dep hc) (
          >>-Avoids (ensure_service-Avoids ro stable)
            (ensure_canary_ingress-Avoids ro d.current_weight))))
