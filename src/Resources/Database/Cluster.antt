-- ===== src/Resources/Database/Cluster.antt =====
-- What the CloudNativePG Cluster says, and how the environment refers to it.
use mathlib.Core.Option
use paperless_ngx_operator.Prelude.{
  ℤ, String, ◌<>◌, true, false, none, some, [], ◌∷◌, ok, ◌≢◌, ◌≡◌, refl, arith, is_empty,
  less_than_one,
}
use paperless_ngx_operator.Kube.{Foreign}
use paperless_ngx_operator.Kube.Json.{Fields, end, object, number, string, lookup, insert, at_path}
use paperless_ngx_operator.Kube.Objects.{Unstructured}
use paperless_ngx_operator.Api.Types.{PaperlessInstance, ManagedDatabase}
use paperless_ngx_operator.Api.Defaults.{size_or_default, default_database_size}
use paperless_ngx_operator.Resources.Names.{db_name, object_meta, common_labels}
use paperless_ngx_operator.Resources.Secrets.{validate_name}
use paperless_ngx_operator.Resources.Env.Upsert.{find}
use paperless_ngx_operator.Resources.Database.{
  cnpg_api_version, cnpg_kind, cnpg_cluster, at_least_one, cluster_spec, managed_or_zero,
  database_env, value_env_var, secret_env_var,
}

-- `SetNestedMap` at a single key stores the map there.
abbrev pub SetsNested : Foreign → Type 0
SetsNested F = (m v : Fields) (k : String) → F.set_nested_map m v k ≡ ok (insert k (object v) m)

module _ {F : Foreign} (sets : SetsNested F) (inst : PaperlessInstance F) where
  -- The part of the spec that describes the managed database, or its zero value.
  abbrev settings : ManagedDatabase F
  settings = managed_or_zero inst.spec.database.cnpg

  pub cnpg_cluster_lem :
      is_empty (F.is_dns1123_subdomain (db_name inst)) ≡ true
      → (c : Unstructured F) × (cnpg_cluster inst ≡ ok c)
        × (c.metadata.name ≡ db_name inst)
        × ((n : ℤ) × (at_path "spec" ("instances" ∷ []) c.content ≡ some (number n))
            × (less_than_one n ≡ false)
            × (less_than_one settings.instances ≡ false → n ≡ settings.instances))
        × (at_path "spec" ("storage" ∷ "size" ∷ []) c.content
            ≡ some (
                string
                  (F.quantity_string (size_or_default settings.storage default_database_size))))
        × (at_path "spec" ("storage" ∷ "storageClass" ∷ []) c.content
            ≡ Option.map string settings.storage.storage_class_name)
  unfolding cnpg_cluster validate_name lookup insert
  cnpg_cluster_lem valid = (
    record {
      api_version = "postgresql.cnpg.io/v1";
      kind = "Cluster";
      metadata = object_meta inst (db_name inst) (common_labels inst "database");
      content = insert "spec" (object (cluster_spec settings)) end;
    },
    ground (arith, sets end (cluster_spec settings) "spec"),
    refl,
    (at_least_one settings.instances, refl, ground arith, ground arith),
    ground arith,
    ground arith,
  )

  -- An invalid name is refused, before anything is applied.
  pub cnpg_cluster-ne-ok :
      (c : Unstructured F)
      → is_empty (F.is_dns1123_subdomain (db_name inst)) ≡ false
      → cnpg_cluster inst ≢ ok c
  unfolding cnpg_cluster validate_name
  cnpg_cluster-ne-ok c h = ground arith

module _ {F : Foreign} (inst : PaperlessInstance F) where
  -- The environment of an instance without an external database, whose Cluster is built, takes
  -- its host from the Cluster's name with "-rw", and its credentials from the Secret with "-app".
  pub database_env-cluster :
      (c : Unstructured F)
      → inst.spec.database.external ≡ none
      → cnpg_cluster inst ≡ ok c
      → (find "PAPERLESS_DBHOST" (database_env inst)
          ≡ some (value_env_var "PAPERLESS_DBHOST" (c.metadata.name <> "-rw")))
        × (find "PAPERLESS_DBUSER" (database_env inst)
            ≡ some (secret_env_var "PAPERLESS_DBUSER" (c.metadata.name <> "-app") "username"))
        × (find "PAPERLESS_DBPASS" (database_env inst)
            ≡ some (secret_env_var "PAPERLESS_DBPASS" (c.metadata.name <> "-app") "password"))
  unfolding database_env cnpg_cluster find
  database_env-cluster c managed built = (ground arith, ground arith, ground arith)

module _ {F : Foreign} (inst : PaperlessInstance F) where
  -- What is built is a Cluster.
  pub cnpg_cluster-kind :
      (c : Unstructured F)
      → cnpg_cluster inst ≡ ok c
      → (c.api_version ≡ cnpg_api_version) × (c.kind ≡ cnpg_kind)
  unfolding cnpg_cluster validate_name
  cnpg_cluster-kind c built = (ground arith, ground arith)
