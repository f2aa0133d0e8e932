-- ===== src/Controller/Apply.antt =====
-- `apply` and `applyOwned` of internal/controller/paperlessinstance_controller.go, and
-- `applyStateful` of internal/controller/deletion_policy.go.
pub mod Success
use paperless_ngx_operator.Prelude.{ℤ, String, ◌<>◌, ◌==◌, wrap_error, if◌then◌else◌}
use paperless_ngx_operator.Kube.{Foreign}
use paperless_ngx_operator.Kube.Objects.{ObjectMeta, Object, metadata, with_metadata}
use paperless_ngx_operator.Api.Types.{deletion_policy_delete}
use paperless_ngx_operator.Api.Defaults.{deletion_policy_or_default}
use paperless_ngx_operator.Controller.Client.{
  Server, Machinery, GroupVersionKind, M, apply_patch, ◌>>=◌, pure, lift, current, wrapping, call,
}
use paperless_ngx_operator.Controller.References.{set_explicit_owner_references}

abbrev describe : String → GroupVersionKind → String → String
describe verb gvk name = verb <> (gvk.kind <> (" " <> name))

module _ {F : Foreign} (S : Server F) (K : Machinery F) where
  -- The result is `status.readyReplicas` of the object that comes back.
  unfoldable pub apply : Object F → M F ℤ
  apply obj = do
    gvk ← lift (wrap_error "resolving GroupVersionKind" (K.gvk_for_object obj))
    encoded ← lift (wrap_error (describe "encoding " gvk (metadata obj).name) (K.marshal gvk obj))
    explicit ← lift (
        wrap_error (describe "normalizing owner references for " gvk (metadata obj).name)
          (set_explicit_owner_references K encoded (metadata obj).owner_references))
    wrapping (describe "applying " gvk (metadata obj).name)
        (call (λ h. S.apply_answer h obj explicit) (apply_patch obj explicit))

  -- `controllerutil.SetControllerReference(inst, obj, r.Scheme)`
  abbrev pub own : ObjectMeta F → M F (ObjectMeta F)
  own meta = do
    inst ← current
    refs ← lift (wrap_error "setting owner reference" (K.set_controller_reference inst meta))
    pure (record meta { owner_references = refs })

  unfoldable pub apply_owned : Object F → M F ℤ
  apply_owned obj = do meta ← own (metadata obj); apply (with_metadata meta obj)

  -- The owner reference of what the deletion policy governs.
  abbrev pub own_by_policy : ObjectMeta F → M F (ObjectMeta F)
  own_by_policy meta = do
    inst ← current
    if deletion_policy_or_default inst.spec == deletion_policy_delete then own meta else pure meta

  unfoldable pub apply_stateful : Object F → M F ℤ
  apply_stateful obj = do meta ← own_by_policy (metadata obj); apply (with_metadata meta obj)
