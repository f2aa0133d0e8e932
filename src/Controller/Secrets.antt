-- ===== src/Controller/Secrets.antt =====
-- `reconcileSecrets` and `ensureGeneratedSecret` of
-- internal/controller/paperlessinstance_controller.go, and `reconcileSecretOwnership` of
-- internal/controller/deletion_policy.go.
pub mod Trace
pub mod Ownership
use paperless_ngx_operator.Prelude.{
  ℕ, Bool, true, false, String, ◌<>◌, ◌==◌, not, Option, none, some, List, [], Result, ok, err,
  wrap, wrap_error, bool_eq, if◌then◌else◌,
}
use paperless_ngx_operator.Kube.{Foreign}
use paperless_ngx_operator.Kube.Objects.{ObjectMeta, Secret, ObjectKey}
use paperless_ngx_operator.Api.Types.{PaperlessInstance, deletion_policy_delete}
use paperless_ngx_operator.Api.Defaults.{deletion_policy_or_default}
use paperless_ngx_operator.Resources.Names.{secret_key_name, admin_secret_name}
use paperless_ngx_operator.Resources.Secrets.{secret_key, admin_secret}
use paperless_ngx_operator.Controller.Client.{
  Server, Machinery, M, get_secret, create_secret, merge_patch_secret, is_not_found, ◌>>=◌, ◌>>◌,
  pure, raise, lift, gets, current, wrapping, call, attempt,
}
use paperless_ngx_operator.Controller.References.{
  owner_references_json, ownership_patch, is_controlled_by,
}
use paperless_ngx_operator.Controller.Apply.{own, own_by_policy}

-- A builder of a Secret, given the source of randomness.
abbrev pub Builder : Foreign → Type 0
Builder F = (ℕ → Result (List ℕ)) → PaperlessInstance F → Result (Option (Secret F))

abbrev pub key_of : {F : Foreign} → ObjectMeta F → ObjectKey
key_of meta = record { name = meta.name; namespace = meta.namespace }

module _ {F : Foreign} (S : Server F) (K : Machinery F) where
  -- The references that the Secret is to have.
  abbrev pub wanted_references : Bool → ObjectMeta F → M F (List F.OwnerReference)
  wanted_references true meta = do
    scratch ← own S K (record meta { owner_references = [] })
    pure scratch.owner_references
  wanted_references false meta = pure []

  -- The rest of `reconcileSecretOwnership`, where the ownership is to change.
  unfoldable pub patch_ownership : Bool → Secret F → M F (Unit {0})
  patch_ownership want_owned secret = do
    refs ← wanted_references want_owned secret.metadata
    list ← lift (owner_references_json K refs)
    body ← lift (wrap_error "encoding owner reference patch" (K.marshal_map (ownership_patch list)))
    wrapping ("patching owner references on secret " <> secret.metadata.name) (
        call (λ h. S.merge_answer h (key_of secret.metadata) body)
          (merge_patch_secret (key_of secret.metadata) body))

  unfoldable pub reconcile_secret_ownership : Secret F → M F (Unit {0})
  reconcile_secret_ownership secret = do
    inst ← current
    let want_owned = deletion_policy_or_default inst.spec == deletion_policy_delete
    let is_owned = is_controlled_by secret.metadata inst
    if bool_eq want_owned is_owned then pure tt else patch_ownership want_owned secret

  -- The builder on the instance, with fresh randomness.
  abbrev pub generate : Builder F → M F (Option (Secret F))
  generate build = do built ← gets (λ s. build (S.rand_read s.history) s.inst); lift built

  -- The end of `ensureGeneratedSecret`, on what the builder returns.
  unfoldable pub create_generated : String → Option (Secret F) → M F (Unit {0})
  create_generated name none = pure tt
  create_generated name (some secret) = do
    meta ← own_by_policy S K secret.metadata
    let owned = record secret { metadata = meta }
    wrapping ("creating secret " <> name)
        (call (λ h. S.create_answer h owned) (create_secret owned))

  -- What follows the Get of the Secret.
  unfoldable pub after_get : String → Builder F → Result (Secret F) → M F (Unit {0})
  unfolding create_generated
  after_get name build (ok existing) = reconcile_secret_ownership existing
  after_get name build (err e) =
      if not (is_not_found e)
      then raise (wrap ("getting secret " <> name) e)
      else do secret ← generate build; create_generated name secret

  unfoldable pub ensure_generated_secret : String → Builder F → M F (Unit {0})
  unfolding after_get
  ensure_generated_secret name build = do
    inst ← current
    let key : ObjectKey = record { name = name; namespace = inst.namespace }
    answer ← attempt (call (λ h. S.secret_answer h key) (get_secret key))
    after_get name build answer

  unfoldable pub reconcile_secrets : M F (Unit {0})
  reconcile_secrets = do
    inst ← current
    wrapping "ensuring secret key" (ensure_generated_secret (secret_key_name inst) secret_key)
    wrapping "ensuring admin secret" (ensure_generated_secret (admin_secret_name inst) admin_secret)
