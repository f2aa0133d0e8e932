-- ===== src/Resources/Database.antt =====
-- internal/resources/database.go: the database's environment variables and the CloudNativePG
-- Cluster.
pub mod Cluster
use paperless_ngx_operator.Prelude.{
  ℤ, pos, String, ◌<>◌, Option, none, some, List, [], ◌∷◌, Result, ok, ◌>>=◌, ◌>>◌, wrap_error,
  less_than_one, itoa, if◌then◌else◌,
}
use paperless_ngx_operator.Kube.{Foreign}
use paperless_ngx_operator.Kube.Json.{Fields, end, field, string, number, object, insert}
use paperless_ngx_operator.Kube.Objects.{EnvVar, secret_key_ref, Unstructured}
use paperless_ngx_operator.Api.Types.{PaperlessInstance, ManagedDatabase, VolumeSpec}
use paperless_ngx_operator.Api.Defaults.{size_or_default, default_database_size}
use paperless_ngx_operator.Resources.Names.{common_labels, object_meta, db_name}
use paperless_ngx_operator.Resources.Secrets.{validate_name}

abbrev pub managed_database_name : String
managed_database_name = "paperless"

abbrev pub cnpg_api_version : String
cnpg_api_version = "postgresql.cnpg.io/v1"

abbrev pub cnpg_kind : String
cnpg_kind = "Cluster"

module _ {F : Foreign} where
  -- `corev1.EnvVar{Name: …, Value: …}`
  abbrev pub value_env_var : String → String → EnvVar F
  value_env_var name value = record { name = name; value = value; value_from = none }

  abbrev pub secret_env_var : String → String → String → EnvVar F
  secret_env_var name secret_name key = record {
    name = name;
    value = "";
    value_from = some (secret_key_ref (record { name = secret_name; key = key }));
  }

  abbrev pub cnpg_app_secret_name : PaperlessInstance F → String
  cnpg_app_secret_name inst = db_name inst <> "-app"

  abbrev pub cnpg_service_name : PaperlessInstance F → String
  cnpg_service_name inst = db_name inst <> "-rw"

  unfoldable pub database_env : PaperlessInstance F → List (EnvVar F)
  database_env inst =
      value_env_var "PAPERLESS_DBENGINE" "postgresql" ∷ elim inst.spec.database.external [
        | some ext ↦
            value_env_var "PAPERLESS_DBHOST" ext.host
            ∷ value_env_var "PAPERLESS_DBPORT" (itoa ext.port)
            ∷ value_env_var "PAPERLESS_DBNAME" ext.name
            ∷ secret_env_var "PAPERLESS_DBUSER" ext.credentials_secret_ref.name "username"
            ∷ secret_env_var "PAPERLESS_DBPASS" ext.credentials_secret_ref.name "password"
            ∷ []
        | none ↦
            value_env_var "PAPERLESS_DBHOST" (cnpg_service_name inst)
            ∷ value_env_var "PAPERLESS_DBPORT" "5432"
            ∷ value_env_var "PAPERLESS_DBNAME" managed_database_name
            ∷ secret_env_var "PAPERLESS_DBUSER" (cnpg_app_secret_name inst) "username"
            ∷ secret_env_var "PAPERLESS_DBPASS" (cnpg_app_secret_name inst) "password"
            ∷ []
      ]

-- The zero value of `ManagedDatabase`, over the zero quantity.
abbrev pub zero_managed_database : (F : Foreign) → ManagedDatabase F
zero_managed_database F = record {
  instances = pos 0;
  storage = record { size = F.zero_quantity; storage_class_name = none; access_modes = [] };
}

-- `instances`, raised to one
abbrev pub at_least_one : ℤ → ℤ
at_least_one instances = if less_than_one instances then pos 1 else instances

module _ {F : Foreign} where
  -- `cnpg`, with the zero value where the pointer is nil
  abbrev pub managed_or_zero : Option (ManagedDatabase F) → ManagedDatabase F
  managed_or_zero none = zero_managed_database F
  managed_or_zero (some cnpg) = cnpg

  -- the map `storage`
  abbrev pub cluster_storage : VolumeSpec F → Fields
  cluster_storage vol =
      let size =
        field "size" (string (F.quantity_string (size_or_default vol default_database_size))) end in
      elim vol.storage_class_name [
        | none ↦ size
        | some class ↦ insert "storageClass" (string class) size
      ]

  -- the map `spec`
  abbrev pub cluster_spec : ManagedDatabase F → Fields
  cluster_spec cnpg = field "instances" (number (at_least_one cnpg.instances)) (
      field "storage" (object (cluster_storage cnpg.storage)) (
        field "bootstrap"
          (object
            (field "initdb" (object (field "database" (string managed_database_name) end)) end))
          end))

  unfoldable pub cnpg_cluster : PaperlessInstance F → Result (Unstructured F)
  cnpg_cluster inst = do
    validate_name F (db_name inst)
    content ←
        wrap_error "setting cluster spec"
          (F.set_nested_map end (cluster_spec (managed_or_zero inst.spec.database.cnpg)) "spec")
    ok (record {
      api_version = cnpg_api_version;
      kind = cnpg_kind;
      metadata = object_meta inst (db_name inst) (common_labels inst "database");
      content = content;
    })
