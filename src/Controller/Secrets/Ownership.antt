-- ===== src/Controller/Secrets/Ownership.antt =====
-- When an existing Secret is patched, and with which owner references
-- (`reconcileSecretOwnership`, internal/controller/deletion_policy.go).
use paperless_ngx_operator.Prelude.{
  Bool, true, false, String, List, [], ◌∷◌, ok, ◌≡◌, ◌≢◌, ◌↔◌, inl, inr, refl, ◌∙◌, arith, bool_eq,
  Result-cases, wrap_error-eq-ok, if◌then◌else◌,
}
use paperless_ngx_operator.Kube.{Foreign}
use paperless_ngx_operator.Kube.Json.{Items}
use paperless_ngx_operator.Kube.Objects.{ObjectMeta, Secret}
use paperless_ngx_operator.Api.Defaults.{deletion_policy-delete_iff}
use paperless_ngx_operator.Controller.Client.{
  Server, Machinery, State, merge_patch_secret, ◌>>=◌, pure,
}
use paperless_ngx_operator.Controller.Inversion.{
  bind-eq-ok, bind-lift-eq-ok, wrapping-eq-ok, call-eq-ok,
}
use paperless_ngx_operator.Controller.References.{
  is_controlled_by, owner_references_json, ownership_patch,
}
use paperless_ngx_operator.Controller.Secrets.{
  key_of, wanted_references, patch_ownership, reconcile_secret_ownership,
}

module _ {F : Foreign} (S : Server F) (K : Machinery F) where
  -- The references of a Secret: the one that `SetControllerReference` gives an object without
  -- owners, or none.
  abbrev pub References : Bool → ObjectMeta F → State F → List F.OwnerReference → Type 0
  References true meta s refs =
      K.set_controller_reference s.inst (record meta { owner_references = [] }) ≡ ok refs
  References false meta s refs = refs ≡ []

  -- One merge patch of the Secret, whose body sets its owner references.
  pub record Patched (want : Bool) (secret : Secret F) (s t : State F) : Type 0 where
    pub refs : List F.OwnerReference
    pub list : Items
    pub body : String
    pub wanted : References want secret.metadata s refs
    pub encoded : owner_references_json K refs ≡ ok list
    pub marshalled : K.marshal_map (ownership_patch list) ≡ ok body
    pub answered : S.merge_answer s.history (key_of secret.metadata) body ≡ ok tt
    pub state :
        t ≡ record s { history = merge_patch_secret (key_of secret.metadata) body ∷ s.history }

  wanted_references-eq-ok :
      (want : Bool) (meta : ObjectMeta F) (s : State F) (refs : List F.OwnerReference)
      → (wanted_references S K want meta s).0 ≡ ok refs
      → References want meta s refs × ((wanted_references S K want meta s).1 ≡ s)
  unfolding ◌>>=◌
  wanted_references-eq-ok true meta s refs h =
      elim (Result-cases
        (K.set_controller_reference s.inst (record meta { owner_references = [] }))) [
          | inl (found, set) ↦ ground arith
          | inr (e, failed) ↦ absurd (ground arith)
        ]
  wanted_references-eq-ok false meta s refs h = (cc, refl)

  patch_ownership-Patched :
      (want : Bool) (secret : Secret F) (s : State F)
      → (patch_ownership S K want secret s).0 ≡ ok tt
      → Patched want secret s (patch_ownership S K want secret s).1
  unfolding patch_ownership
  patch_ownership-Patched want secret s h =
      let (refs, e1, h1, t1) = bind-eq-ok _ _ s tt h in
      let (list, e2, h2, t2) = bind-lift-eq-ok _ _ _ tt h1 in
      let (body, e3, h3, t3) = bind-lift-eq-ok _ _ _ tt h2 in
      let (h4, t4) = wrapping-eq-ok _ _ _ tt h3 in
      let (answered, t5) = call-eq-ok _ _ _ tt h4 in
      let (wanted, still) = wanted_references-eq-ok want secret.metadata s refs e1 in
      record {
        refs = refs;
        list = list;
        body = body;
        wanted = wanted;
        encoded = e2;
        marshalled = wrap_error-eq-ok _ _ e3;
        answered = rw still at answered;
        state = t1 ∙ t2 ∙ t3 ∙ t4 ∙ t5 ∙ rw still refl;
      }

  -- What is done about a Secret that is owned, or not, under a policy.
  pub data Adopted (secret : Secret F) (s : State F) : State F → Type 0 where
    settled :
        (is_controlled_by secret.metadata s.inst ≡ true) ↔ (s.inst.spec.deletion_policy ≡ "Delete")
        → Adopted secret s s
    owned :
        {t : State F}
        → s.inst.spec.deletion_policy ≡ "Delete"
        → is_controlled_by secret.metadata s.inst ≡ false
        → Patched true secret s t
        → Adopted secret s t
    released :
        {t : State F}
        → s.inst.spec.deletion_policy ≢ "Delete"
        → is_controlled_by secret.metadata s.inst ≡ true
        → Patched false secret s t
        → Adopted secret s t

  adopt :
      (want has : Bool) (secret : Secret F) (s : State F)
      → (want ≡ true) ↔ (s.inst.spec.deletion_policy ≡ "Delete")
      → is_controlled_by secret.metadata s.inst ≡ has
      → ((if bool_eq want has then pure tt else patch_ownership S K want secret) s).0 ≡ ok tt
      → Adopted secret s
          ((if bool_eq want has then pure tt else patch_ownership S K want secret) s).1
  unfolding ◌>>=◌
  adopt true true secret s iff is h = settled ((λ _. iff.0 refl), (λ _. is))
  adopt true false secret s iff is h =
      owned (iff.0 refl) is (patch_ownership-Patched true secret s h)
  adopt false true secret s iff is h =
      released (λ d. absurd (ground (arith, iff.1 d))) is (patch_ownership-Patched false secret s h)
  adopt false false secret s iff is h = settled ((λ e. cc), (λ d. absurd (ground (arith, iff.1 d))))

  -- An existing Secret is left alone, without a request, if the instance controls it exactly
  -- under the policy Delete. Otherwise success means one merge patch: under Delete it sets the
  -- reference that `SetControllerReference` gives, under any other policy the empty list.
  pub reconcile_secret_ownership-Adopted :
      (secret : Secret F) (s : State F)
      → (reconcile_secret_ownership S K secret s).0 ≡ ok tt
      → Adopted secret s (reconcile_secret_ownership S K secret s).1
  unfolding reconcile_secret_ownership ◌>>=◌
  reconcile_secret_ownership-Adopted secret s h =
      adopt _ _ secret s (deletion_policy-delete_iff s.inst.spec) refl h
