-- ===== src/Controller/Desired.antt =====
-- What a reconcile is to achieve, without the order of its requests: in the place of each object
-- that the instance asks to be applied, what was applied last is that object, under the right
-- owner, and nothing else was applied (internal/controller/paperlessinstance_controller.go,
-- internal/resources). The Secrets are created and patched, not applied: see Secrets.
pub mod Slots
pub mod Places
pub mod Ensure
pub mod Quiet
pub mod Puts
pub mod Steps
pub mod Status
pub mod Whole
pub mod Again
pub mod Targets
pub mod Apart
pub mod Secrets
pub mod Isolated
use paperless_ngx_operator.Prelude.{
  ℤ, String, ◌==◌, Bool, ◌&&◌, Option, none, some, List, [], ◌∷◌, ◌++◌, map, Result, ok, err, ◌≡◌,
  ◌≢◌, refl, ◌⊎◌, if◌then◌else◌, All,
}
use paperless_ngx_operator.Kube.{Foreign}
use paperless_ngx_operator.Kube.Objects.{
  Object, PersistentVolumeClaim, Unstructured, deployment, service, pvc, unstructured, metadata,
  with_metadata,
}
use paperless_ngx_operator.Api.Types.{PaperlessInstance, ExternalDatabase}
use paperless_ngx_operator.Resources.Storage.{pvcs}
use paperless_ngx_operator.Resources.Cache.{valkey_deployment, valkey_service, valkey_pvc}
use paperless_ngx_operator.Resources.Database.{cnpg_cluster}
use paperless_ngx_operator.Resources.Workload
use paperless_ngx_operator.Controller.Client.{
  Server, Machinery, History, get_instance, get_secret, get_crd, create_secret, apply_patch,
  merge_patch_secret, patch_status,
}
use paperless_ngx_operator.Controller.Runs.{SameButStatus}

-- Who owns an object: the instance, or the instance under the deletion policy Delete only.
pub data Ownership : Type 0 where
  controlled by_policy : Ownership

pub record Want (F : Foreign) : Type 0 where
  pub ownership : Ownership
  pub object : Object F

module _ {F : Foreign} where
  abbrev pub stateful : Object F → Want F
  stateful obj = record { ownership = by_policy; object = obj }

  abbrev pub stateless : Object F → Want F
  stateless obj = record { ownership = controlled; object = obj }

  abbrev pub claims : List (PersistentVolumeClaim F) → List (Want F)
  claims [] = []
  claims (p ∷ ps) = stateful (pvc p) ∷ claims ps

  -- The Cluster, where there is no external database and the Cluster can be built.
  abbrev pub wanted_cluster : Option ExternalDatabase → Result (Unstructured F) → List (Want F)
  wanted_cluster none (ok c) = stateful (unstructured c) ∷ []
  wanted_cluster none (err e) = []
  wanted_cluster (some ext) built = []

  abbrev pub wanted : {A : Type 0} → (A → Object F) → Option A → List (Want F)
  wanted f none = []
  wanted f (some a) = stateless (f a) ∷ []

  unfoldable pub storage_wants : PaperlessInstance F → List (Want F)
  storage_wants i = claims (pvcs i)

  unfoldable pub database_wants : PaperlessInstance F → List (Want F)
  database_wants i = wanted_cluster i.spec.database.external (cnpg_cluster i)

  unfoldable pub cache_wants : PaperlessInstance F → List (Want F)
  cache_wants i =
      wanted deployment (valkey_deployment i)
      ++ (wanted service (valkey_service i) ++ wanted pvc (valkey_pvc i))

  unfoldable pub workload_wants : PaperlessInstance F → List (Want F)
  workload_wants i =
      stateless (service (Workload.service i)) ∷ stateless (deployment (Workload.deployment i)) ∷ []

  -- The objects that an instance asks for, other than its Secrets.
  unfoldable pub desired : PaperlessInstance F → List (Want F)
  desired i = storage_wants i ++ (database_wants i ++ (cache_wants i ++ workload_wants i))

-- The place of an object in the cluster.
pub record Slot : Type 0 where
  pub kind : String
  pub name : String
  pub namespace : String

abbrev pub slot_eq : Slot → Slot → Bool
slot_eq a b = a.kind == b.kind && (a.name == b.name && a.namespace == b.namespace)

-- A cluster: the configuration in each place that was applied last.
abbrev pub Cluster : Foreign → Type 0
Cluster F = Slot → Option (Object F)

module _ {F : Foreign} where
  abbrev pub kind_of : Object F → String
  kind_of (deployment d) = "Deployment"
  kind_of (service s) = "Service"
  kind_of (pvc p) = "PersistentVolumeClaim"
  kind_of (unstructured u) = u.kind

  abbrev pub slot_of : Object F → Slot
  slot_of obj = record {
    kind = kind_of obj;
    name = (metadata obj).name;
    namespace = (metadata obj).namespace;
  }

  pub slot_of-with_metadata :
      (obj : Object F) (refs : List F.OwnerReference)
      → slot_of (with_metadata (record (metadata obj) { owner_references = refs }) obj)
        ≡ slot_of obj
  slot_of-with_metadata (deployment d) refs = refl
  slot_of-with_metadata (service s) refs = refl
  slot_of-with_metadata (pvc p) refs = refl
  slot_of-with_metadata (unstructured u) refs = refl

  abbrev pub want_slots : List (Want F) → List Slot
  want_slots ws = map (λ w. slot_of w.object) ws

  abbrev pub put : Object F → Cluster F → Cluster F
  put obj cluster slot = if slot_eq (slot_of obj) slot then some obj else cluster slot

  abbrev pub put_if_ok : Result ℤ → Object F → Cluster F → Cluster F
  put_if_ok (ok n) obj cluster = put obj cluster
  put_if_ok (err e) obj cluster = cluster

  -- The cluster that the requests have made, where each apply that was not refused counts.
  unfoldable pub cluster_of : Server F → History F → Cluster F
  cluster_of S [] slot = none
  cluster_of S (apply_patch obj body ∷ h) slot =
      put_if_ok (S.apply_answer h obj body) obj (cluster_of S h) slot
  cluster_of S (get_instance key ∷ h) slot = cluster_of S h slot
  cluster_of S (get_secret key ∷ h) slot = cluster_of S h slot
  cluster_of S (get_crd name ∷ h) slot = cluster_of S h slot
  cluster_of S (create_secret s ∷ h) slot = cluster_of S h slot
  cluster_of S (merge_patch_secret key body ∷ h) slot = cluster_of S h slot
  cluster_of S (patch_status sent base ∷ h) slot = cluster_of S h slot

-- The object is the wanted one with its owner references: those that `SetControllerReference`
-- gives it where the instance is to own it, and those that it was built with elsewhere.
pub record OwnedAs {F : Foreign} (K : Machinery F) (i : PaperlessInstance F) (w : Want F)
    (obj : Object F) : Type 0 where
  pub refs : List F.OwnerReference
  pub is : obj ≡ with_metadata (record (metadata w.object) { owner_references = refs }) w.object
  pub owned :
      (w.ownership ≡ controlled) ⊎ (i.spec.deletion_policy ≡ "Delete")
      → (j : PaperlessInstance F) × SameButStatus i j
        × (K.set_controller_reference j (metadata w.object) ≡ ok refs)
  pub unowned :
      w.ownership ≡ by_policy
      → i.spec.deletion_policy ≢ "Delete"
      → refs ≡ (metadata w.object).owner_references

-- Each wanted object with its owner references, in the order of the list.
pub data AllOwned {F : Foreign} (K : Machinery F) (i : PaperlessInstance F)
    : List (Want F) → List (Object F) → Type 0 where
  nothing : AllOwned K i [] []
  also :
      {w : Want F} {ws : List (Want F)} {obj : Object F} {objs : List (Object F)}
      → OwnedAs K i w obj
      → AllOwned K i ws objs
      → AllOwned K i (w ∷ ws) (obj ∷ objs)
