-- ===== src/Rollouts/Actions.antt =====
-- internal/controller/rollout_controller.go: the Deployments, the Service and the canary Ingress that a
-- decision is carried out on.
use Prim.Native.String.{◌++◌}
use software_distribution_pl.Prelude.{
  ℤ, pos, int_eq, string_eq, ◌==◌, Bool, true, false, not, Option, none, some, if◌then◌else◌,
}
use software_distribution_pl.Api.Meta.{Time}
use software_distribution_pl.Api.Rollout.{Rollout, TrafficRoutingType, ingress_canary}
use software_distribution_pl.Kube.{
  Cluster, not_found, api, Result, ok, err, Deployment, M, ◌>>=◌, ◌>>◌, pure, read, emit, ignore,
  unless_exists, create_deployment, patch_deployment, create_service, create_ingress, patch_ingress,
  patch_rollout, update_rollout_status,
}
use software_distribution_pl.Canary.{Decision}
use software_distribution_pl.Rollouts.{
  resolve_total_replicas, resolve_service_target_port, rollout_svc_target_port_env,
  canary_ingress_spec, workload_key, build_deployment, has_replicas, found, RolloutReconciler,
}

module _ (k : Cluster) (r : RolloutReconciler) where
  abbrev pub time : M Time
  time = read (λ tr. ok (k.now tr))

  abbrev pub save : Rollout → M (Unit {0})
  save ro = emit k (update_rollout_status ro)

  -- A patch gives back the stored object, its status with it.
  unfoldable pub patch_meta : Rollout → Rollout → M Rollout
  patch_meta base changed =
      emit k (patch_rollout base changed) >> read (λ tr. ok (k.stored_rollout tr changed))

  unfoldable pub get_stable : Rollout → M (Option Deployment)
  get_stable ro = read (λ tr. ok (found (k.get_deployment tr (workload_key ro ""))))

  -- An error of the write, that of the owner reference too, is only logged.
  unfoldable pub create_stable : Rollout → ℤ → Option Deployment → M (Unit {0})
  create_stable ro total (some dep) = pure tt
  create_stable ro total none =
      ignore (emit k (create_deployment (build_deployment ro "" ro.spec.stable_image total)))

  abbrev pub live_replicas : Option Deployment → Option ℤ
  live_replicas dep = elim dep [ none ↦ none | some d ↦ d.replicas ]

  unfoldable pub ensure_workload : Rollout → M ℤ
  ensure_workload ro = do
    dep ← get_stable ro
    let total = resolve_total_replicas ro.spec.replicas (live_replicas dep)
    create_stable ro total dep
    pure total

  -- The Deployment is the one that was asked for, also where it had been created meanwhile.
  unfoldable pub create_canary : Deployment → M (Option Deployment)
  create_canary dep tr =
      let made = unless_exists (emit k (create_deployment dep)) tr in
      (made.0, ok (elim made.1 [ ok _ ↦ some dep | err _ ↦ none ]))

  -- What follows the Get of the canary.
  unfoldable pub take_canary : Rollout → Result Deployment → M (Option Deployment)
  take_canary ro (ok dep) = pure (some dep)
  take_canary ro (err (api not_found)) =
      create_canary (build_deployment ro "-canary" ro.spec.canary_image (pos 0))
  take_canary ro (err e) = pure none

  unfoldable pub ensure_canary : Rollout → M (Option Deployment)
  ensure_canary ro =
      read (λ tr. ok (k.get_deployment tr (workload_key ro "-canary"))) >>= take_canary ro

  unfoldable pub scale_deployment : ℤ → Deployment → M (Unit {0})
  scale_deployment replicas dep =
      if has_replicas dep replicas
      then pure tt
      else ignore (emit k (patch_deployment dep (record dep { replicas = some replicas })))

  -- What follows the Get of the Service.
  unfoldable pub take_service : Rollout → Option Deployment → Result (Unit {0}) → M (Unit {0})
  take_service ro stable (err (api not_found)) = ignore (
      emit k (
        create_service (workload_key ro "-sdp") ro.spec.workload_ref
          (resolve_service_target_port stable (rollout_svc_target_port_env r.env_port))))
  take_service ro stable got = pure tt

  unfoldable pub ensure_service : Rollout → Option Deployment → M (Unit {0})
  ensure_service ro stable =
      read (λ tr. ok (k.get_service tr (workload_key ro "-sdp"))) >>= take_service ro stable

  abbrev pub is_ingress_canary : TrafficRoutingType → Bool
  is_ingress_canary ingress_canary = true
  is_ingress_canary _ = false

  -- What follows the Get of the canary Ingress, whose path is that of the spec or the root.
  unfoldable pub take_ingress : Rollout → ℤ → Result (Unit {0}) → M (Unit {0})
  take_ingress ro weight (ok found) =
      ignore (emit k (patch_ingress (workload_key ro "-sdp-canary") weight))
  take_ingress ro weight (err (api not_found)) =
      let path = ro.spec.traffic_routing.ingress_ref in
      ignore (
        emit k (
          create_ingress (workload_key ro "-sdp-canary")
            (canary_ingress_spec (ro.spec.workload_ref ++ ".sdp.local")
              (if path == "" then "/" else path) ro.spec.workload_ref)
            weight))
  take_ingress ro weight (err e) = pure tt

  unfoldable pub ensure_canary_ingress : Rollout → ℤ → M (Unit {0})
  ensure_canary_ingress ro weight =
      if not (is_ingress_canary ro.spec.traffic_routing.type)
      then pure tt
      else if not r.canary_ingress_enabled
      then pure tt
      else (read (λ tr. ok (k.get_ingress tr (workload_key ro "-sdp-canary")))
          >>= take_ingress ro weight)

  unfoldable pub scale_if_found : ℤ → Option Deployment → M (Unit {0})
  scale_if_found replicas none = pure tt
  scale_if_found replicas (some dep) = scale_deployment replicas dep

  unfoldable pub apply_decision : Rollout → Decision → Option Deployment → M (Unit {0})
  apply_decision ro d canary_dep = do
    stable ← get_stable ro
    scale_if_found d.stable_replicas stable
    scale_if_found d.canary_replicas canary_dep
    ensure_service ro stable
    ensure_canary_ingress ro d.current_weight
