-- ===== src/Controller/References/Explicit.antt =====
-- The object that `setExplicitOwnerReferences` encodes (internal/controller/deletion_policy.go).
use paperless_ngx_operator.Prelude.{
  ℕ, String, some, List, [], ◌∷◌, ok, ◌≡◌, ◌≢◌, arith, eq_iff, >>=-eq-ok,
}
use paperless_ngx_operator.Kube.{Foreign}
use paperless_ngx_operator.Kube.Json.{
  Items, Fields, array, lookup, insert, lookup-insert, fields_of, at_path,
}
use paperless_ngx_operator.Kube.Json.Same.{
  SameItems, SameTo, Same, SameMap, Same-object, Same-array,
}
use paperless_ngx_operator.Controller.Client.{Machinery}
use paperless_ngx_operator.Controller.References.{
  map_or_empty, with_references, owner_references_json, set_explicit_owner_references,
}

-- A map that is encoded is decoded to one with the same values at the same keys, in some order.
abbrev pub RoundTrips : {F : Foreign} → Machinery F → Type 0
RoundTrips K =
    (m : Fields) (d : String)
    → K.marshal_map m ≡ ok d
    → (after : Fields) × (K.unmarshal d ≡ ok after) × SameMap m after

with_references-other :
    (obj : Fields) (list : Items) (k : String)
    → k ≢ "metadata"
    → lookup k (with_references obj list) ≡ lookup k obj
unfolding with_references
with_references-other obj list k other = rw lookup-insert (ground (arith, eq_iff "metadata" k))

with_references-inner :
    (obj : Fields) (list : Items) (k : String)
    → k ≢ "ownerReferences"
    → lookup k (insert "ownerReferences" (array list) (map_or_empty (lookup "metadata" obj)))
      ≡ lookup k (fields_of (lookup "metadata" obj))
with_references-inner obj list k other =
    rw lookup-insert (ground (arith, eq_iff "ownerReferences" k))

module _ {F : Foreign} (K : Machinery F) (round : RoundTrips K) where
  -- What a reader of the explicit text finds, against the object `before` that was encoded: the
  -- list of references at `metadata.ownerReferences`, also where it is empty, every other field
  -- of the metadata, and every other field.
  pub record IsExplicit (refs : List F.OwnerReference) (before : Fields) (body : String)
      : Type 0 where
    pub list : Items
    pub after : Fields
    pub written : Items
    pub encoded : owner_references_json K refs ≡ ok list
    pub decoded : K.unmarshal body ≡ ok after
    pub references : at_path "metadata" ("ownerReferences" ∷ []) after ≡ some (array written)
    pub complete : (n : ℕ) → SameItems (SameTo n) list written
    pub metadata :
        (k : String)
        → k ≢ "ownerReferences"
        → Same
            (lookup k (fields_of (lookup "metadata" before)))
            (lookup k (fields_of (lookup "metadata" after)))
    pub others : (k : String) → k ≢ "metadata" → Same (lookup k before) (lookup k after)

  IsExplicit-of :
      (refs : List F.OwnerReference) (before after : Fields) (body : String) (list : Items)
      → owner_references_json K refs ≡ ok list
      → K.unmarshal body ≡ ok after
      → SameMap (with_references before list) after
      → IsExplicit refs before body
  unfolding with_references
  IsExplicit-of refs before after body list encoded decoded same_ =
      let inner : Fields =
        insert "ownerReferences" (array list) (map_or_empty (lookup "metadata" before)) in
      let (meta, held, same_meta) = Same-object inner _ (rw lookup-insert at (same_ "metadata")) in
      let (written, put, complete) =
        Same-array list _ (rw lookup-insert at (same_meta "ownerReferences")) in
      record {
        list = list;
        after = after;
        written = written;
        encoded = encoded;
        decoded = decoded;
        references = rw held put;
        complete = complete;
        metadata =
            λ k other. rw held (rw (with_references-inner before list k other) at (same_meta k));
        others = λ k other. rw (with_references-other before list k other) at (same_ k);
      }

  -- Where encoding a map and decoding it gives the same values at the same keys, in some order: a
  -- text that is made explicit decodes to an object with exactly the encoded references, in their
  -- order, at `metadata.ownerReferences`, an empty list included, and with the same values as
  -- before at every other key of the metadata and at every other key.
  pub set_explicit_owner_references-IsExplicit :
      (encoded body : String) (refs : List F.OwnerReference) (before : Fields)
      → K.unmarshal encoded ≡ ok before
      → set_explicit_owner_references K encoded refs ≡ ok body
      → IsExplicit refs before body
  unfolding set_explicit_owner_references
  set_explicit_owner_references-IsExplicit encoded body refs before was h =
      let (list, e2, h2) =
        >>=-eq-ok (owner_references_json K refs) (λ l. K.marshal_map (with_references before l))
          (rw was at h) in
      let (after, decoded, same_) = round _ body h2 in
      IsExplicit-of refs before after body list e2 decoded same_
