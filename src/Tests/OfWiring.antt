-- ===== src/Tests/OfWiring.antt =====
-- The theorems of `Resources.Workload.Wiring` and of `Resources.Database` at concrete inputs.
use paperless_ngx_operator.Prelude.{
  true, false, String, ◌==◌, Option, none, some, [], ◌∷◌, map, ok, ◌≡◌, ◌↔◌, refl, arith, any,
  is_some, List, join,
}
use paperless_ngx_operator.Kube.Json.{end, object, insert}
use paperless_ngx_operator.Kube.Objects.{
  Deployment, Service, PersistentVolumeClaim, Unstructured, Container,
}
use paperless_ngx_operator.Api.Types.{PaperlessInstance}
use paperless_ngx_operator.Api.Defaults.{is_managed}
use paperless_ngx_operator.Resources.Names.{derived_name, common_labels, object_meta}
use paperless_ngx_operator.Resources.Storage.{pvcs}
use paperless_ngx_operator.Resources.Secrets.{validate_name}
use paperless_ngx_operator.Resources.Cache.{valkey_deployment, valkey_service, valkey_pvc}
use paperless_ngx_operator.Resources.Database.{
  cluster_spec, managed_or_zero, cnpg_cluster, value_env_var,
}
use paperless_ngx_operator.Resources.Workload.{deployment, service}
use paperless_ngx_operator.Resources.Env.Upsert.{find, find_last}
use paperless_ngx_operator.Resources.Workload.Wiring.{
  selects, headers_of, claim_of, service-selects-deployment, valkey_service-selects,
  paperless_volumes-pvcs, probe_headers-allowed, deployment-valkey_collision,
}
use paperless_ngx_operator.Tests.Fixtures.{
  foreign, deleted, retained, instance_named, managed_database,
}

-- The objects of the managed cache.
abbrev of_some {ℓ} : {A : Type ℓ} (o : Option A) → is_some o ≡ true → A
of_some (some a) h = a
of_some none h = absurd (ground arith)

abbrev cache_deployment : Deployment foreign
unfolding valkey_deployment is_managed
cache_deployment = of_some (valkey_deployment deleted) refl

abbrev cache_service : Service foreign
unfolding valkey_service is_managed
cache_service = of_some (valkey_service deleted) refl

abbrev cache_claim : PersistentVolumeClaim foreign
unfolding valkey_pvc is_managed
cache_claim = of_some (valkey_pvc deleted) refl

cache_built :
    (valkey_deployment deleted ≡ some cache_deployment)
    × (valkey_service deleted ≡ some cache_service)
    × (valkey_pvc deleted ≡ some cache_claim)
unfolding valkey_deployment valkey_service valkey_pvc is_managed
cache_built = (refl, refl, refl)

service-selects-deployment_example :
    ((selects (service deleted).selector (deployment retained).template_labels ≡ true)
      ↔ (deleted.name ≡ retained.name))
    × (selects (deployment deleted).selector (deployment deleted).template_labels ≡ true)
service-selects-deployment_example = service-selects-deployment deleted retained

valkey_service-selects_example :
    (selects cache_service.selector cache_deployment.template_labels ≡ true)
    × (selects cache_service.selector (deployment retained).template_labels ≡ false)
    × (selects (service retained).selector cache_deployment.template_labels ≡ false)
valkey_service-selects_example =
    valkey_service-selects deleted retained cache_service cache_deployment cache_built.1
      cache_built.0

paperless_volumes-pvcs_example :
    (map
        (λ (c : Container foreign). map (λ m. m.mount_path) c.volume_mounts)
        (deployment deleted).pod.containers
      ≡ ("/usr/src/paperless/data" ∷ "/usr/src/paperless/media" ∷ "/usr/src/paperless/consume"
          ∷ "/usr/src/paperless/export" ∷ [])
        ∷ [])
    × (map
          (λ (c : Container foreign).
            map (λ m. claim_of (deployment deleted).pod.volumes m.name) c.volume_mounts)
          (deployment deleted).pod.containers
        ≡ map (λ p. some p.metadata.name) (pvcs deleted) ∷ [])
paperless_volumes-pvcs_example = paperless_volumes-pvcs deleted

probe_headers-allowed_example :
    (c : Container foreign) × (host : String) × (hosts : List String) × ((deployment
        deleted).pod.containers
      ≡ c ∷ [])
    × (headers_of c.readiness_probe ≡ ("Host", host) ∷ [])
    × (headers_of c.liveness_probe ≡ ("Host", host) ∷ [])
    × (find "PAPERLESS_ALLOWED_HOSTS" c.env
        ≡ some (value_env_var "PAPERLESS_ALLOWED_HOSTS" (join "," hosts)))
    × (any (λ h. h == host) hosts ≡ true)
unfolding find_last
probe_headers-allowed_example = probe_headers-allowed deleted refl

abbrev colliding : PaperlessInstance foreign
colliding = instance_named "p-valkey" "Delete" managed_database

deployment-valkey_collision_example :
    ((deployment colliding).metadata.name ≡ cache_deployment.metadata.name)
    × ((deployment colliding).metadata.namespace ≡ cache_deployment.metadata.namespace)
    × ((service colliding).metadata.name ≡ cache_service.metadata.name)
    × ((service colliding).metadata.namespace ≡ cache_service.metadata.namespace)
    × (selects (deployment colliding).selector cache_deployment.template_labels ≡ false)
unfolding derived_name
deployment-valkey_collision_example =
    deployment-valkey_collision deleted colliding cache_deployment cache_service refl refl
      cache_built.0 cache_built.1

abbrev cluster : Unstructured foreign
cluster = record {
  api_version = "postgresql.cnpg.io/v1";
  kind = "Cluster";
  metadata = object_meta deleted "p-db" (common_labels deleted "database");
  content = insert "spec" (object (cluster_spec (managed_or_zero deleted.spec.database.cnpg))) end;
}

cluster_built : cnpg_cluster deleted ≡ ok cluster
unfolding cnpg_cluster validate_name derived_name
cluster_built = refl
