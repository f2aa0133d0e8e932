-- ===== src/Controller/Desired/Status.antt =====
-- What an instance asks for does not depend on its status
-- (internal/resources/storage.go, cache.go, database.go and workload.go).
use paperless_ngx_operator.Prelude.{◌≡◌, refl, sym}
use paperless_ngx_operator.Kube.{Foreign}
use paperless_ngx_operator.Api.Types.{PaperlessInstance, PaperlessInstanceStatus}
use paperless_ngx_operator.Resources.Names.{derived_name, common_labels}
use paperless_ngx_operator.Resources.Storage.{build_pvc, volume_pvc, pvcs}
use paperless_ngx_operator.Resources.Cache.{valkey_deployment, valkey_service, valkey_pvc}
use paperless_ngx_operator.Resources.Database.{database_env, cnpg_cluster}
use paperless_ngx_operator.Resources.Workload
use paperless_ngx_operator.Controller.Runs.{SameButStatus}
use paperless_ngx_operator.Controller.Desired.{
  desired, storage_wants, database_wants, cache_wants, workload_wants,
}

module _ {F : Foreign} {A : Type 0} (f : PaperlessInstance F → A) where
  SameButStatus-eq :
      {i j : PaperlessInstance F}
      → ((status : PaperlessInstanceStatus) → f (record i { status = status }) ≡ f i)
      → SameButStatus i j
      → f j ≡ f i
  SameButStatus-eq {i} {j} blind same_ =
      rw (sym same_.name, sym same_.namespace, sym same_.uid, sym same_.generation, sym same_.spec)
        (blind j.status)

module _ {F : Foreign} {i j : PaperlessInstance F} (same_ : SameButStatus i j) where
  pub storage_wants-status : storage_wants j ≡ storage_wants i
  unfolding storage_wants pvcs volume_pvc build_pvc derived_name common_labels
  storage_wants-status = SameButStatus-eq storage_wants (λ status. refl) same_

  pub database_wants-status : database_wants j ≡ database_wants i
  unfolding database_wants cnpg_cluster derived_name common_labels
  database_wants-status = SameButStatus-eq database_wants (λ status. refl) same_

  pub cache_wants-status : cache_wants j ≡ cache_wants i
  unfolding cache_wants valkey_deployment valkey_service valkey_pvc build_pvc derived_name
      common_labels
  cache_wants-status = SameButStatus-eq cache_wants (λ status. refl) same_

  pub workload_wants-status : workload_wants j ≡ workload_wants i
  unfolding workload_wants Workload.service Workload.deployment Workload.workload_env
      Workload.computed_env Workload.paperless_volumes Workload.paperless_volume_mounts
      Workload.paperless_volume_specs Workload.admin_env Workload.cache_env Workload.secret_key_env
      Workload.allowed_hosts Workload.host_list Workload.service_dns_names database_env derived_name
      common_labels
  workload_wants-status = SameButStatus-eq workload_wants (λ status. refl) same_

  pub desired-status : desired j ≡ desired i
  unfolding desired
  desired-status =
      rw (storage_wants-status, database_wants-status, cache_wants-status, workload_wants-status)
        refl
