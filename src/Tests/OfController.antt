-- ===== src/Tests/OfController.antt =====
-- The theorems of `Controller` at concrete inputs.
use paperless_ngx_operator.Prelude.{true, false, none, some, arith, [], ok, ◌≡◌, refl}
use paperless_ngx_operator.Api.Defaults.{deletion_policy_or_default, is_managed, is_enabled}
use paperless_ngx_operator.Resources.Names.{derived_name}
use paperless_ngx_operator.Resources.Storage.{pvcs}
use paperless_ngx_operator.Api.Types.{PaperlessInstance}
use paperless_ngx_operator.Resources.Secrets.{secret_key, admin_secret, validate_name, random_key}
use paperless_ngx_operator.Resources.Cache.{valkey_deployment, valkey_service, valkey_pvc}
use paperless_ngx_operator.Controller.Client.{◌>>=◌}
use paperless_ngx_operator.Controller.References.{
  owner_references_json, set_explicit_owner_references,
}
use paperless_ngx_operator.Controller.Apply.{apply, apply_owned, apply_stateful}
use paperless_ngx_operator.Controller.Permitted.{Permitted}
use paperless_ngx_operator.Controller.Runs.{Grows}
use paperless_ngx_operator.Controller.Secrets.{ensure_generated_secret, reconcile_secrets}
use paperless_ngx_operator.Controller.Database.{reconcile_external_database, reconcile_database}
use paperless_ngx_operator.Controller.Steps.{
  reconcile_storage, reconcile_cache, reconcile_workload, apply_pvcs,
}
use paperless_ngx_operator.Controller.Steps.Success.{
  WorkloadReported, reconcile_workload-WorkloadReported,
}
use paperless_ngx_operator.Controller.Reconcile.{reconcile_instance, reconcile, after_database}
use paperless_ngx_operator.Controller.Reconcile.Trace.{reconcile_instance-Blocked, reconcile-Grows}
use paperless_ngx_operator.Controller.Reconcile.Status.{Outcome, reconcile-Outcome}
use paperless_ngx_operator.Prelude.{true}
use paperless_ngx_operator.Resources.Database.{cnpg_cluster}
use paperless_ngx_operator.Controller.Database.{reconcile_managed_database}
use paperless_ngx_operator.Controller.Database.Managed.{Managed, reconcile_managed_database-Managed}
use paperless_ngx_operator.Tests.Fixtures.{
  sets, foreign, deleted, outside, server, machinery, begin, key,
}

reconcile-Grows_example :
    Grows
      (Permitted (server deleted) machinery true)
      []
      (reconcile (server deleted) machinery key []).1
reconcile-Grows_example = reconcile-Grows (server deleted) machinery key []

reconcile-Outcome_example :
    Outcome
      (server deleted)
      machinery
      sets
      key
      []
      (ok deleted)
      (reconcile (server deleted) machinery key [])
reconcile-Outcome_example = reconcile-Outcome (server deleted) machinery sets key []

-- With an external database whose Secret is missing, the steps ask for another reconcile.
outside_waits :
    (reconcile_instance (server outside) machinery (begin outside)).0
    ≡ ok (record { requeue_after = 30 })
unfolding reconcile_instance ◌>>=◌ reconcile_secrets ensure_generated_secret secret_key admin_secret
    validate_name random_key is_enabled derived_name reconcile_storage pvcs apply_pvcs
    apply_stateful apply deletion_policy_or_default set_explicit_owner_references
    owner_references_json reconcile_database reconcile_external_database after_database
outside_waits = refl

reconcile_instance-Blocked_example :
    Grows
      (Permitted (server outside) machinery false)
      []
      (reconcile_instance (server outside) machinery (begin outside)).1.history
reconcile_instance-Blocked_example =
    reconcile_instance-Blocked (server outside) machinery (begin outside)
      (rw outside_waits (omega arith))

storage_ok : (reconcile_storage (server deleted) machinery (begin deleted)).0 ≡ ok tt
unfolding ◌>>=◌ reconcile_storage pvcs apply_pvcs apply_stateful apply deletion_policy_or_default
    set_explicit_owner_references owner_references_json
storage_ok = refl

cache_ok : (reconcile_cache (server deleted) machinery (begin deleted)).0 ≡ ok tt
unfolding ◌>>=◌ reconcile_cache valkey_deployment valkey_service valkey_pvc is_managed apply_owned
    apply set_explicit_owner_references owner_references_json
cache_ok = refl

abbrev uncached : PaperlessInstance foreign
uncached = record deleted {
  spec = record (deleted.spec) {
    cache = record { managed = some false; url = "redis://r:6379"; url_secret_ref = none };
  };
}

workload_ok : (reconcile_workload (server deleted) machinery (begin deleted)).0 ≡ ok tt
unfolding ◌>>=◌ reconcile_workload apply_owned apply set_explicit_owner_references
    owner_references_json
workload_ok = refl

reconcile_workload-WorkloadReported_example :
    WorkloadReported
      (server deleted)
      machinery
      sets
      (begin deleted)
      (reconcile_workload (server deleted) machinery (begin deleted)).1
reconcile_workload-WorkloadReported_example =
    reconcile_workload-WorkloadReported (server deleted) machinery sets (begin deleted) tt
      workload_ok

reconcile_managed_database-Managed_example :
    Managed
      (server deleted)
      machinery
      sets
      (begin deleted)
      (ok tt)
      (reconcile_managed_database (server deleted) machinery (begin deleted)).0
      (reconcile_managed_database (server deleted) machinery (begin deleted)).1
reconcile_managed_database-Managed_example =
    reconcile_managed_database-Managed (server deleted) machinery sets (begin deleted)

-- The managed database of the instance is applied.
managed_ready : (reconcile_managed_database (server deleted) machinery (begin deleted)).0 ≡ ok true
unfolding ◌>>=◌ reconcile_managed_database cnpg_cluster validate_name derived_name apply_stateful
    apply deletion_policy_or_default set_explicit_owner_references owner_references_json
managed_ready = refl
