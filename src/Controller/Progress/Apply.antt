-- ===== src/Controller/Progress/Apply.antt =====
-- An apply succeeds where its surroundings do not fail
-- (internal/controller/paperlessinstance_controller.go, internal/controller/deletion_policy.go).
use paperless_ngx_operator.Prelude.{
  ℕ, Bool, true, false, String, List, [], ◌∷◌, ok, ◌≡◌, refl, ◌∙◌, if◌then◌else◌,
}
use paperless_ngx_operator.Kube.{Foreign}
use paperless_ngx_operator.Kube.Json.{Fields, Items, nil, cons, object}
use paperless_ngx_operator.Kube.Objects.{ObjectMeta, Object, metadata, with_metadata}
use paperless_ngx_operator.Api.Types.{PaperlessInstance}
use paperless_ngx_operator.Controller.Client.{Server, Machinery, pure}
use paperless_ngx_operator.Controller.Runs.{SameButStatus}
use paperless_ngx_operator.Controller.References.{
  reference_json, owner_references_json, set_explicit_owner_references, with_references,
}
use paperless_ngx_operator.Controller.Apply.{apply, own, own_by_policy, apply_owned, apply_stateful}
use paperless_ngx_operator.Controller.Progress.{
  IsOwnable, Works, Serves, Succeeds, Succeeds-pure, Succeeds-lift, Succeeds-gets,
  Succeeds-wrapping, Succeeds-call, Succeeds-bind,
}

module _ {F : Foreign} {K : Machinery F} (works : Works K) where
  pub owner_references_json-eq-ok :
      (refs : List F.OwnerReference) → (list : Items) × (owner_references_json K refs ≡ ok list)
  unfolding owner_references_json reference_json
  owner_references_json-eq-ok [] = (nil, refl)
  owner_references_json-eq-ok (r ∷ refs) =
      let (text, m, encoded, decoded) = works.encodes_reference r in
      let (list, rest) = owner_references_json-eq-ok refs in
      (cons (object m) list, rw (encoded, decoded, rest) refl)

  explicit-eq-ok :
      (text : String) (m : Fields) (refs : List F.OwnerReference)
      → K.unmarshal text ≡ ok m
      → (body : String) × (set_explicit_owner_references K text refs ≡ ok body)
  unfolding set_explicit_owner_references
  explicit-eq-ok text m refs decoded =
      let (list, made) = owner_references_json-eq-ok refs in
      let (body, encoded) = works.encodes_map (with_references m list) in
      (body, rw (decoded, made, encoded) refl)

module _ {F : Foreign} {S : Server F} {K : Machinery F} {n : ℕ} (i : PaperlessInstance F)
    (works : Works K) (serves : Serves S n) where
  pub apply-Succeeds : (obj : Object F) → Succeeds i n (λ _. Unit) (apply S K obj)
  unfolding apply
  apply-Succeeds obj =
      let (gvk, known) = works.kind_known obj in
      let (text, m, encoded, decoded) = works.encodes gvk obj in
      let (body, explicit) = explicit-eq-ok works text m (metadata obj).owner_references decoded in
      Succeeds-bind {Q = λ g. g ≡ gvk} _ _ (Succeeds-lift _ gvk (rw known refl) refl) λ g is_gvk.
        Succeeds-bind {Q = λ t. t ≡ text} _ _
          (Succeeds-lift _ text (rw (is_gvk, encoded) refl) refl)
          λ t is_text.
            Succeeds-bind {Q = λ _. Unit} _ _
              (Succeeds-lift _ body (rw (is_text, explicit) refl) tt)
              λ b _. Succeeds-wrapping _ _ (
                Succeeds-call _ _
                  λ h late. let (r, answered) = serves.applied h obj b late in (r, answered, tt))

  pub own-Succeeds :
      (meta : ObjectMeta F) → IsOwnable i meta → Succeeds i n (λ _. Unit) (own S K meta)
  own-Succeeds meta (namespace, ownerless) =
      Succeeds-bind {Q = λ j. SameButStatus i j} _ _ (Succeeds-gets _ λ s l. l.same_spec) λ j same_.
        let (refs, set) = works.references_set j meta (namespace ∙ same_.namespace, ownerless) in
        Succeeds-bind {Q = λ _. Unit} _ _ (Succeeds-lift _ refs (rw set refl) tt)
          λ r _. Succeeds-pure _ tt

  own_if_Succeeds :
      (b : Bool) (meta : ObjectMeta F)
      → IsOwnable i meta
      → Succeeds i n (λ _. Unit) (if b then own S K meta else pure meta)
  own_if_Succeeds true meta ownable = own-Succeeds meta ownable
  own_if_Succeeds false meta ownable = Succeeds-pure meta tt

  pub own_by_policy-Succeeds :
      (meta : ObjectMeta F) → IsOwnable i meta → Succeeds i n (λ _. Unit) (own_by_policy S K meta)
  own_by_policy-Succeeds meta ownable =
      Succeeds-bind {Q = λ _. Unit} _ _ (Succeeds-gets _ λ s l. tt)
        λ j _. own_if_Succeeds _ meta ownable

  pub apply_owned-Succeeds :
      (obj : Object F) → IsOwnable i (metadata obj) → Succeeds i n (λ _. Unit) (apply_owned S K obj)
  unfolding apply_owned
  apply_owned-Succeeds obj ownable =
      Succeeds-bind _ _ (own-Succeeds (metadata obj) ownable)
        λ meta _. apply-Succeeds (with_metadata meta obj)

  pub apply_stateful-Succeeds :
      (obj : Object F)
      → IsOwnable i (metadata obj)
      → Succeeds i n (λ _. Unit) (apply_stateful S K obj)
  unfolding apply_stateful
  apply_stateful-Succeeds obj ownable =
      Succeeds-bind _ _ (own_by_policy-Succeeds (metadata obj) ownable)
        λ meta _. apply-Succeeds (with_metadata meta obj)
