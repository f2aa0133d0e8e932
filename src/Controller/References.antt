-- ===== src/Controller/References.antt =====
-- The JSON of owner references, and `isControlledBy`
-- (internal/controller/deletion_policy.go).
pub mod Explicit
use paperless_ngx_operator.Prelude.{
  Bool, false, String, ◌==◌, Option, none, some, List, [], ◌∷◌, Result, ok, ◌>>=◌, wrap_error,
}
use paperless_ngx_operator.Kube.{Foreign}
use paperless_ngx_operator.Kube.Json.{
  Json, Items, nil, cons, Fields, end, field, array, object, lookup, insert,
}
use paperless_ngx_operator.Kube.Objects.{ObjectMeta}
use paperless_ngx_operator.Api.Types.{PaperlessInstance}
use paperless_ngx_operator.Controller.Client.{Machinery}

-- The map at `metadata`, or an empty one where that is missing or no map.
abbrev pub map_or_empty : Option Json → Fields
map_or_empty (some (object m)) = m
map_or_empty _ = end

-- The map that `setExplicitOwnerReferences` encodes.
unfoldable pub with_references : Fields → Items → Fields
with_references obj list =
    insert "metadata"
      (object (insert "ownerReferences" (array list) (map_or_empty (lookup "metadata" obj)))) obj

-- The body of the patch that `reconcileSecretOwnership` sends.
abbrev pub ownership_patch : Items → Fields
ownership_patch list = field "metadata" (object (field "ownerReferences" (array list) end)) end

module _ {F : Foreign} (K : Machinery F) where
  -- One round of the loop of `ownerReferencesJSON`.
  unfoldable pub reference_json : F.OwnerReference → Result Json
  reference_json ref = do
    encoded ← wrap_error "encoding owner reference" (K.marshal_reference ref)
    m ← wrap_error "decoding owner reference" (K.unmarshal encoded)
    ok (object m)

  unfoldable pub owner_references_json : List F.OwnerReference → Result Items
  unfolding reference_json
  owner_references_json [] = ok nil
  owner_references_json (ref ∷ refs) = do
    m ← reference_json ref
    list ← owner_references_json refs
    ok (cons m list)

  unfoldable pub set_explicit_owner_references : String → List F.OwnerReference → Result String
  set_explicit_owner_references encoded refs = do
    obj ← wrap_error "decoding object" (K.unmarshal encoded)
    list ← owner_references_json refs
    K.marshal_map (with_references obj list)

module _ {F : Foreign} where
  unfoldable pub is_controlled_by : ObjectMeta F → PaperlessInstance F → Bool
  is_controlled_by obj inst = elim (F.get_controller_of obj.owner_references) [
    | none ↦ false
    | some ref ↦ F.uid ref == inst.uid
  ]
