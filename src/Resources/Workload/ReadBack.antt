-- ===== src/Resources/Workload/ReadBack.antt =====
-- What a reader of `PAPERLESS_ALLOWED_HOSTS` and of `PAPERLESS_DBPORT` gets back
-- (internal/resources/workload.go and internal/resources/database.go).
use paperless_ngx_operator.Prelude.{
  ℕ, pos, String, true, some, itoa, show, decimal_value, decimal_value-show, split_commas,
  all_lack_comma, split_commas-join, ◌≡◌, refl,
}
use paperless_ngx_operator.Kube.{Foreign}
use paperless_ngx_operator.Api.Types.{PaperlessInstance, ExternalDatabase}
use paperless_ngx_operator.Resources.Env.Upsert.{find}
use paperless_ngx_operator.Resources.Database.{database_env, value_env_var}
use paperless_ngx_operator.Resources.Workload.{service_dns_names, host_list, allowed_hosts}

module _ {F : Foreign} (inst : PaperlessInstance F) where
  -- If no allowed host has a comma, the parts of the allowed hosts between commas are the hosts.
  pub split_commas-allowed_hosts :
      all_lack_comma (host_list inst) ≡ true → split_commas (allowed_hosts inst) ≡ host_list inst
  unfolding allowed_hosts host_list service_dns_names
  split_commas-allowed_hosts h = split_commas-join _ _ h

  -- The database port in the environment is decimal text: of an external database with a
  -- port that is not negative, it is read back as this port.
  pub database_env-port :
      (ext : ExternalDatabase) (port : ℕ)
      → inst.spec.database.external ≡ some ext
      → ext.port ≡ pos port
      → (text : String) × (find "PAPERLESS_DBPORT" (database_env inst)
          ≡ some (value_env_var "PAPERLESS_DBPORT" text))
        × (decimal_value text ≡ port)
  unfolding database_env find itoa
  database_env-port ext port external is =
      (show port, rw (external, is) refl, decimal_value-show port)
