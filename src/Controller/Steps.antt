-- ===== src/Controller/Steps.antt =====
-- `reconcileStorage`, `reconcileCache` and `reconcileWorkload` of
-- internal/controller/paperlessinstance_controller.go.
pub mod Trace
pub mod Order
pub mod Success
use paperless_ngx_operator.Prelude.{
  ℤ, String, ◌<>◌, Option, none, some, List, [], ◌∷◌, less_than_one, if◌then◌else◌,
}
use paperless_ngx_operator.Kube.{Foreign}
use paperless_ngx_operator.Kube.Objects.{
  PersistentVolumeClaim, Object, pvc, deployment, service, condition_true, condition_false,
}
use paperless_ngx_operator.Api.Types.{condition_ready}
use paperless_ngx_operator.Resources.Storage.{pvcs}
use paperless_ngx_operator.Resources.Cache.{valkey_deployment, valkey_service, valkey_pvc}
use paperless_ngx_operator.Resources.Workload
use paperless_ngx_operator.Controller.Client.{
  Server, Machinery, M, ◌>>=◌, ◌>>◌, pure, current, wrapping,
}
use paperless_ngx_operator.Controller.Conditions.{mark}
use paperless_ngx_operator.Controller.Apply.{apply_owned, apply_stateful}

module _ {F : Foreign} (S : Server F) (K : Machinery F) where
  -- The loop of `reconcileStorage`.
  unfoldable pub apply_pvcs : List (PersistentVolumeClaim F) → M F (Unit {0})
  apply_pvcs [] = pure tt
  apply_pvcs (p ∷ ps) = do
    wrapping ("applying PVC " <> p.metadata.name) (apply_stateful S K (pvc p))
    apply_pvcs ps

  unfoldable pub reconcile_storage : M F (Unit {0})
  unfolding apply_pvcs
  reconcile_storage = do inst ← current; apply_pvcs (pvcs inst)

  -- `if obj := …; obj != nil { … }`
  unfoldable pub apply_if_some : String → Option (Object F) → M F (Unit {0})
  apply_if_some prefix none = pure tt
  apply_if_some prefix (some obj) = do wrapping prefix (apply_owned S K obj); pure tt

  abbrev pub object_of : {A : Type 0} → (A → Object F) → Option A → Option (Object F)
  object_of f none = none
  object_of f (some a) = some (f a)

  unfoldable pub reconcile_cache : M F (Unit {0})
  unfolding apply_if_some
  reconcile_cache = do
    inst ← current
    apply_if_some "applying valkey deployment" (object_of deployment (valkey_deployment inst))
    apply_if_some "applying valkey service" (object_of service (valkey_service inst))
    apply_if_some "applying valkey PVC" (object_of pvc (valkey_pvc inst))

  -- The condition that `reconcileWorkload` reports for the Deployment's ready replicas.
  unfoldable pub report_workload : ℤ → M F (Unit {0})
  report_workload ready_replicas =
      if less_than_one ready_replicas
      then mark K condition_ready condition_false "WorkloadNotReady"
          "waiting for the Deployment to report a ready replica"
      else mark K condition_ready condition_true "WorkloadReady"
          "the Deployment reports at least one ready replica"

  unfoldable pub reconcile_workload : M F (Unit {0})
  unfolding report_workload
  reconcile_workload = do
    inst ← current
    wrapping "applying service" (apply_owned S K (service (Workload.service inst)))
    ready_replicas ←
        wrapping "applying deployment" (apply_owned S K (deployment (Workload.deployment inst)))
    report_workload ready_replicas
