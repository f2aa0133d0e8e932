-- ===== src/Resources/Workload.antt =====
-- internal/resources/workload.go: the Paperless Deployment and Service.
mod Probes
unfoldable pub use Probes.*
pub mod ReadBack
pub mod Environment
pub mod Wiring
use paperless_ngx_operator.Prelude.{
  ℤ, pos, String, ◌<>◌, ◌==◌, not, none, some, List, [], ◌∷◌, ◌++◌, map, join, itoa, if◌then◌else◌,
}
use paperless_ngx_operator.Kube.{Foreign}
use paperless_ngx_operator.Kube.Objects.{
  StringMap, Deployment, Service, EnvVar, Probe, Volume, VolumeMount,
}
use paperless_ngx_operator.Api.Types.{PaperlessInstance}
use paperless_ngx_operator.Api.Defaults.{is_managed, is_enabled, reference}
use paperless_ngx_operator.Resources.Names.{
  common_labels, object_meta, secret_key_name, admin_secret_name, data_pvc_name, media_pvc_name,
  consume_pvc_name, export_pvc_name, valkey_name,
}
use paperless_ngx_operator.Resources.Cache.{valkey_port}
use paperless_ngx_operator.Resources.Database.{value_env_var, secret_env_var, database_env}
use paperless_ngx_operator.Resources.Env.{dedupe_env}

abbrev pub default_timezone : String
default_timezone = "UTC"

abbrev pub default_ocr_language : String
default_ocr_language = "eng"

abbrev pub default_admin_username : String
default_admin_username = "admin"

abbrev pub paperless_replicas : ℤ
paperless_replicas = pos 1

-- A volume's name, the claim that it binds to and its mount path.
pub record VolumeEntry : Type 0 where
  pub name : String
  pub claim : String
  pub mount_path : String

-- `value` or, where it is empty, the default
abbrev pub or_default : String → String → String
or_default value default = if value == "" then default else value

-- The host of `spec.url`, where it parses and has one.
abbrev pub url_host : (F : Foreign) → String → List String
url_host F url =
    if not (url == "")
    then (elim (F.url_hostname url) [
      | some host ↦ if not (host == "") then host ∷ [] else []
      | none ↦ []
    ])
    else []

module _ {F : Foreign} where
  abbrev pub workload_labels : PaperlessInstance F → StringMap
  workload_labels inst = common_labels inst "server"

  unfoldable pub service_dns_names : PaperlessInstance F → List String
  service_dns_names inst =
      inst.name
      ∷ (inst.name <> ("." <> (inst.namespace <> ".svc")))
      ∷ (inst.name <> ("." <> (inst.namespace <> ".svc.cluster.local")))
      ∷ []

  -- The slice `hosts` of `allowedHosts`.
  unfoldable pub host_list : PaperlessInstance F → List String
  unfolding service_dns_names
  host_list inst =
      (service_dns_names inst ++ ("localhost" ∷ "127.0.0.1" ∷ [])) ++ url_host F inst.spec.url

  unfoldable pub allowed_hosts : PaperlessInstance F → String
  allowed_hosts inst = join "," (host_list inst)

  unfoldable pub secret_key_env : PaperlessInstance F → EnvVar F
  secret_key_env inst = elim inst.spec.secret_key_secret_ref [
    | some ref ↦ secret_env_var "PAPERLESS_SECRET_KEY" ref.name ref.key
    | none ↦ secret_env_var "PAPERLESS_SECRET_KEY" (secret_key_name inst) "PAPERLESS_SECRET_KEY"
  ]

  unfoldable pub cache_env : PaperlessInstance F → EnvVar F
  cache_env inst =
      if is_managed inst.spec.cache
      then value_env_var "PAPERLESS_REDIS"
          ("redis://" <> (valkey_name inst <> (":" <> itoa valkey_port)))
      else (elim inst.spec.cache.url_secret_ref [
        | some ref ↦ secret_env_var "PAPERLESS_REDIS" ref.name ref.key
        | none ↦ value_env_var "PAPERLESS_REDIS" inst.spec.cache.url
      ])

  unfoldable pub admin_env : PaperlessInstance F → List (EnvVar F)
  admin_env inst =
      if not (is_enabled inst.spec.admin)
      then []
      else (value_env_var "PAPERLESS_ADMIN_USER"
            (or_default inst.spec.admin.username default_admin_username)
          ∷ [])
        ++ ((if not (inst.spec.admin.email == "")
              then value_env_var "PAPERLESS_ADMIN_MAIL" inst.spec.admin.email ∷ []
              else [])
            ++ (elim inst.spec.admin.password_secret_ref [
              | some ref ↦ secret_env_var "PAPERLESS_ADMIN_PASSWORD" ref.name ref.key ∷ []
              | none ↦
                  secret_env_var "PAPERLESS_ADMIN_PASSWORD" (admin_secret_name inst) "password" ∷ []
            ]))

  -- What the operator itself puts in front of `spec.env`.
  unfoldable pub computed_env : PaperlessInstance F → List (EnvVar F)
  computed_env inst =
      (value_env_var "PAPERLESS_ALLOWED_HOSTS" (allowed_hosts inst)
        ∷ value_env_var "PAPERLESS_TIME_ZONE" (or_default inst.spec.timezone default_timezone)
        ∷ value_env_var "PAPERLESS_OCR_LANGUAGE"
            (or_default (join "+" inst.spec.ocr.languages) default_ocr_language)
        ∷ [])
      ++ ((if not (inst.spec.url == "")
            then value_env_var "PAPERLESS_URL" inst.spec.url
              ∷ value_env_var "PAPERLESS_CSRF_TRUSTED_ORIGINS" inst.spec.url
              ∷ []
            else [])
          ++ ((secret_key_env inst ∷ cache_env inst ∷ []) ++ (admin_env inst ++ database_env inst)))

  unfoldable pub workload_env : PaperlessInstance F → List (EnvVar F)
  workload_env inst = dedupe_env (computed_env inst ++ inst.spec.env)

  unfoldable pub paperless_volume_specs : PaperlessInstance F → List VolumeEntry
  paperless_volume_specs inst =
      record { name = "data"; claim = data_pvc_name inst; mount_path = "/usr/src/paperless/data" }
      ∷ record {
        name = "media";
        claim = media_pvc_name inst;
        mount_path = "/usr/src/paperless/media";
      }
      ∷ record {
        name = "consume";
        claim = consume_pvc_name inst;
        mount_path = "/usr/src/paperless/consume";
      }
      ∷ record {
        name = "export";
        claim = export_pvc_name inst;
        mount_path = "/usr/src/paperless/export";
      }
      ∷ []

  unfoldable pub paperless_volumes : PaperlessInstance F → List Volume
  unfolding paperless_volume_specs
  paperless_volumes inst =
      map (λ s. record { name = s.name; claim_name = s.claim }) (paperless_volume_specs inst)

  unfoldable pub paperless_volume_mounts : PaperlessInstance F → List VolumeMount
  unfolding paperless_volume_specs
  paperless_volume_mounts inst =
      map (λ s. record { name = s.name; mount_path = s.mount_path }) (paperless_volume_specs inst)

  unfoldable pub deployment : PaperlessInstance F → Deployment F
  deployment inst = record {
    metadata = object_meta inst inst.name (workload_labels inst);
    replicas = paperless_replicas;
    selector = workload_labels inst;
    strategy = "Recreate";
    template_labels = workload_labels inst;
    pod = record {
      image_pull_secrets = inst.spec.image.pull_secrets;
      containers =
          record {
            name = "paperless";
            image = reference inst.spec.image;
            image_pull_policy = inst.spec.image.pull_policy;
            ports = record { name = "http"; container_port = paperless_port } ∷ [];
            env = workload_env inst;
            env_from = inst.spec.env_from;
            resources = some inst.spec.resources;
            volume_mounts = paperless_volume_mounts inst;
            readiness_probe = some (
                paperless_probe inst.name readiness_initial_delay_seconds readiness_period_seconds
                  readiness_timeout_seconds readiness_failure_threshold);
            liveness_probe = some (
                paperless_probe inst.name liveness_initial_delay_seconds liveness_period_seconds
                  liveness_timeout_seconds liveness_failure_threshold);
          }
          ∷ [];
      volumes = paperless_volumes inst;
    };
  }

  unfoldable pub service : PaperlessInstance F → Service F
  service inst = record {
    metadata = object_meta inst inst.name (workload_labels inst);
    selector = workload_labels inst;
    ports = record { name = "http"; port = paperless_port; target_port = paperless_port } ∷ [];
  }
