-- ===== src/Tests/OfStore.antt =====
-- The theorems of `Controller.SecretStore` on a concrete server.
use paperless_ngx_operator.Prelude.{[], ◌∷◌, refl}
use paperless_ngx_operator.Kube.Objects.{ObjectKey}
use paperless_ngx_operator.Resources.Secrets.{secret_key, admin_secret, validate_name, random_key}
use paperless_ngx_operator.Resources.Names.{derived_name}
use paperless_ngx_operator.Api.Defaults.{is_enabled, deletion_policy_or_default}
use paperless_ngx_operator.Controller.Client.{History, create_secret, ◌>>=◌}
use paperless_ngx_operator.Controller.Apply.{own_by_policy}
use paperless_ngx_operator.Controller.Secrets.{ensure_generated_secret, reconcile_secrets}
use paperless_ngx_operator.Controller.SecretStore.Stable.{reconcile_all, Holds, reconcile_all-Holds}
use paperless_ngx_operator.Controller.SecretStore.Settled.{
  SecretsSettled, reconcile_secrets-SecretsSettled,
}
use paperless_ngx_operator.Controller.Client.{State}
use paperless_ngx_operator.Controller.Runs.{Grows}
use paperless_ngx_operator.Controller.Reconcile.{reconcile_instance}
use paperless_ngx_operator.Controller.SecretStore.Quiet.{Quiet, reconcile_instance-Quiet}
use paperless_ngx_operator.Tests.Fixtures.{foreign, deleted, retained, begin, key, owned_secret}
use paperless_ngx_operator.Tests.Store.{
  store_server, store_machinery, replay, store_server-IsStore, store_machinery-Controls,
}

reconcile_secrets-SecretsSettled_example :
    SecretsSettled
      (store_server deleted)
      store_machinery
      replay
      (store_server-IsStore deleted)
      (begin deleted)
      (reconcile_secrets (store_server deleted) store_machinery (begin deleted)).1
unfolding reconcile_secrets ensure_generated_secret ◌>>=◌ secret_key admin_secret own_by_policy
    validate_name random_key derived_name is_enabled deletion_policy_or_default
reconcile_secrets-SecretsSettled_example =
    reconcile_secrets-SecretsSettled (store_server deleted) store_machinery replay
      (store_server-IsStore deleted) store_machinery-Controls (begin deleted) refl

-- The history in which a Secret is created, and the Secret as it is stored.
abbrev created_before : History foreign
created_before = create_secret owned_secret ∷ []

abbrev owned_key : ObjectKey
owned_key = record { name = "p-admin"; namespace = "docs" }

reconcile_all-Holds_example :
    Holds
      (store_server retained)
      store_machinery
      replay
      (store_server-IsStore retained)
      owned_secret
      owned_key
      (reconcile_all
        (store_server retained)
        store_machinery
        replay
        (store_server-IsStore retained)
        (key ∷ key ∷ [])
        created_before)
reconcile_all-Holds_example =
    reconcile_all-Holds (store_server retained) store_machinery replay
      (store_server-IsStore retained) (key ∷ key ∷ []) owned_secret owned_key created_before refl

-- What the first secrets step leaves, and a later state of the instance with that history.
settled_secrets :
    SecretsSettled
      (store_server deleted)
      store_machinery
      replay
      (store_server-IsStore deleted)
      (begin deleted)
      (reconcile_secrets (store_server deleted) store_machinery (begin deleted)).1
unfolding reconcile_secrets ensure_generated_secret ◌>>=◌ secret_key admin_secret own_by_policy
    validate_name random_key derived_name is_enabled deletion_policy_or_default
settled_secrets =
    reconcile_secrets-SecretsSettled (store_server deleted) store_machinery replay
      (store_server-IsStore deleted) store_machinery-Controls (begin deleted) refl

abbrev later : State foreign
later = record { inst = deleted; history = settled_secrets.history }

reconcile_instance-Quiet_example :
    Grows Quiet settled_secrets.history
      (reconcile_instance (store_server deleted) store_machinery later).1.history
reconcile_instance-Quiet_example =
    reconcile_instance-Quiet (store_server deleted) store_machinery replay
      (store_server-IsStore deleted) later settled_secrets.key settled_secrets.admin
