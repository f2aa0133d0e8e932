-- ===== src/Controller/Database.antt =====
-- `reconcileDatabase` and what it calls, of
-- internal/controller/paperlessinstance_controller.go.
pub mod Branches
pub mod Managed
use paperless_ngx_operator.Prelude.{
  Bool, true, false, String, ◌<>◌, Option, none, some, List, [], ◌∷◌, Result, ok, err, wrap,
  wrap_error, is_some, lookup, if◌then◌else◌,
}
use paperless_ngx_operator.Kube.{Foreign}
use paperless_ngx_operator.Kube.Objects.{
  ObjectKey, Secret, StringMap, condition_true, condition_false, unstructured,
}
use paperless_ngx_operator.Api.Types.{ExternalDatabase, condition_database_ready}
use paperless_ngx_operator.Resources.Database.{cnpg_cluster}
use paperless_ngx_operator.Controller.Client.{
  Server, Machinery, M, get_secret, get_crd, is_not_found, ◌>>=◌, ◌>>◌, pure, raise, lift, current,
  wrapping, call, attempt,
}
use paperless_ngx_operator.Controller.Conditions.{mark}
use paperless_ngx_operator.Controller.Apply.{apply_stateful}

abbrev pub cnpg_crd_name : String
cnpg_crd_name = "clusters.postgresql.cnpg.io"

abbrev pub required_keys : List String
required_keys = "username" ∷ "password" ∷ []

-- The loop over the required keys: the first that the Secret lacks.
unfoldable pub missing_key : List String → StringMap → Option String
unfolding lookup
missing_key [] contents = none
missing_key (key ∷ keys) contents =
    let rest = missing_key keys contents in if is_some (lookup key contents) then rest else some key

module _ {F : Foreign} (S : Server F) (K : Machinery F) where
  -- The end of `reconcileExternalDatabase`, on what the loop finds.
  unfoldable pub report_external : String → Option String → M F Bool
  report_external name (some key) = do
    mark K condition_database_ready condition_false "ExternalDatabaseSecretInvalid"
        ("secret " <> (F.quote name <> (" is missing required key " <> F.quote key)))
    pure false
  report_external name none = do
    mark K condition_database_ready condition_true "ExternalDatabaseConfigured"
        "using the externally configured database"
    pure true

  -- What follows the Get of the credentials.
  unfoldable pub check_external : String → Result (Secret F) → M F Bool
  unfolding report_external
  check_external name (err e) =
      if is_not_found e
      then (do
        mark K condition_database_ready condition_false "ExternalDatabaseSecretMissing" (
            "secret "
            <> (F.quote name
                <> " referenced by spec.database.external.credentialsSecretRef does not exist"))
        pure false)
      else raise (wrap "getting external database secret" e)
  check_external name (ok secret) = report_external name (missing_key required_keys secret.contents)

  unfoldable pub reconcile_external_database : ExternalDatabase → M F Bool
  unfolding check_external
  reconcile_external_database ext = do
    inst ← current
    let key : ObjectKey = record {
      name = ext.credentials_secret_ref.name;
      namespace = inst.namespace;
    }
    answer ← attempt (call (λ h. S.secret_answer h key) (get_secret key))
    check_external key.name answer

  -- The switch at the end of `cnpgInstalled`.
  abbrev pub installed_of : Result (Unit {0}) → Result Bool
  installed_of (ok found) = ok true
  installed_of (err e) = if is_not_found e then ok false else err e

  unfoldable pub cnpg_installed : M F Bool
  cnpg_installed = do
    answer ← attempt (call (λ h. S.crd_answer h cnpg_crd_name) (get_crd cnpg_crd_name))
    lift (installed_of answer)

  -- The end of `reconcileManagedDatabase`.
  unfoldable pub apply_cluster : Bool → M F Bool
  apply_cluster false = do
    mark K condition_database_ready condition_false "CloudNativePGMissing" (
        "install CloudNativePG (https://cloudnative-pg.io) to let the operator manage this instance's "
        <> "database, or configure spec.database.external to use one already running")
    pure false
  apply_cluster true = do
    inst ← current
    cluster ← lift (wrap_error "building CloudNativePG cluster" (cnpg_cluster inst))
    wrapping "applying CloudNativePG cluster" (apply_stateful S K (unstructured cluster))
    mark K condition_database_ready condition_true "CloudNativePGClusterApplied"
        "the managed CloudNativePG cluster has been applied"
    pure true

  unfoldable pub reconcile_managed_database : M F Bool
  unfolding apply_cluster cnpg_installed
  reconcile_managed_database = do
    installed ← wrapping "checking for CloudNativePG" cnpg_installed
    apply_cluster installed

  -- The choice of `reconcileDatabase`.
  abbrev pub database_step : Option ExternalDatabase → M F Bool
  database_step (some ext) = reconcile_external_database ext
  database_step none = reconcile_managed_database

  unfoldable pub reconcile_database : M F Bool
  unfolding reconcile_external_database reconcile_managed_database
  reconcile_database = do inst ← current; database_step inst.spec.database.external
