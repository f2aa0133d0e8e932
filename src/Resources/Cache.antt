-- ===== src/Resources/Cache.antt =====
-- internal/resources/cache.go: the managed Valkey cache.
use paperless_ngx_operator.Prelude.{ℤ, pos, String, not, Option, none, some, [], ◌∷◌, if◌then◌else◌}
use paperless_ngx_operator.Kube.{Foreign}
use paperless_ngx_operator.Kube.Objects.{StringMap, Deployment, Service, PersistentVolumeClaim}
use paperless_ngx_operator.Api.Types.{PaperlessInstance}
use paperless_ngx_operator.Api.Defaults.{is_managed}
use paperless_ngx_operator.Resources.Names.{common_labels, object_meta, valkey_name}
use paperless_ngx_operator.Resources.Storage.{build_pvc}

abbrev pub default_valkey_image : String
default_valkey_image = "valkey/valkey:8.1.10-alpine"

abbrev pub valkey_port : ℤ
valkey_port = pos 6379

abbrev pub valkey_data_size : String
valkey_data_size = "1Gi"

abbrev pub valkey_replicas : ℤ
valkey_replicas = pos 1

module _ {F : Foreign} where
  abbrev pub valkey_labels : PaperlessInstance F → StringMap
  valkey_labels inst = common_labels inst "cache"

  unfoldable pub valkey_deployment : PaperlessInstance F → Option (Deployment F)
  valkey_deployment inst =
      if not (is_managed inst.spec.cache)
      then none
      else some (record {
        metadata = object_meta inst (valkey_name inst) (valkey_labels inst);
        replicas = valkey_replicas;
        selector = valkey_labels inst;
        strategy = "Recreate";
        template_labels = valkey_labels inst;
        pod = record {
          image_pull_secrets = [];
          containers =
              record {
                name = "valkey";
                image = default_valkey_image;
                image_pull_policy = "";
                ports = record { name = "valkey"; container_port = valkey_port } ∷ [];
                env = [];
                env_from = [];
                resources = none;
                volume_mounts = record { name = "data"; mount_path = "/data" } ∷ [];
                readiness_probe = none;
                liveness_probe = none;
              }
              ∷ [];
          volumes = record { name = "data"; claim_name = valkey_name inst } ∷ [];
        };
      })

  unfoldable pub valkey_service : PaperlessInstance F → Option (Service F)
  valkey_service inst =
      if not (is_managed inst.spec.cache)
      then none
      else some (record {
        metadata = object_meta inst (valkey_name inst) (valkey_labels inst);
        selector = valkey_labels inst;
        ports = record { name = "valkey"; port = valkey_port; target_port = valkey_port } ∷ [];
      })

  unfoldable pub valkey_pvc : PaperlessInstance F → Option (PersistentVolumeClaim F)
  unfolding build_pvc
  valkey_pvc inst =
      if not (is_managed inst.spec.cache)
      then none
      else some (build_pvc inst (valkey_name inst) "cache" (F.must_parse valkey_data_size) [] none)
