-- ===== src/Controller/Apply/Success.antt =====
-- What a successful apply has sent.
use paperless_ngx_operator.Prelude.{
  ℤ, Bool, true, false, String, List, ◌∷◌, ok, ◌↔◌, ◌≡◌, ◌≢◌, refl, ◌∙◌, arith, wrap_error-eq-ok,
  if◌then◌else◌, Result-cases, inl, inr,
}
use paperless_ngx_operator.Kube.{Foreign}
use paperless_ngx_operator.Kube.Objects.{ObjectMeta, Object, metadata, with_metadata}
use paperless_ngx_operator.Api.Defaults.{deletion_policy-delete_iff}
use paperless_ngx_operator.Controller.Client.{Server, Machinery, State, apply_patch, ◌>>=◌, pure}
use paperless_ngx_operator.Controller.Inversion.{
  bind-eq-ok, bind-lift-eq-ok, wrapping-eq-ok, call-eq-ok,
}
use paperless_ngx_operator.Controller.Permitted.{IsEncoding}
use paperless_ngx_operator.Controller.Apply.{own, own_by_policy, apply, apply_owned, apply_stateful}

module _ {F : Foreign} (S : Server F) (K : Machinery F) where
  -- An apply of `obj` was sent and answered with `n`, and nothing else happened.
  pub record Sent (obj : Object F) (s : State F) (n : ℤ) (t : State F) : Type 0 where
    pub body : String
    pub encoding : IsEncoding S K obj body
    pub answered : S.apply_answer s.history obj body ≡ ok n
    pub state : t ≡ record s { history = apply_patch obj body ∷ s.history }

  pub apply-Sent :
      (obj : Object F) (s : State F) (n : ℤ)
      → (apply S K obj s).0 ≡ ok n
      → Sent obj s n (apply S K obj s).1
  unfolding apply
  apply-Sent obj s n h =
      let (gvk, e1, h1, t1) = bind-lift-eq-ok _ _ s n h in
      let (encoded, e2, h2, t2) = bind-lift-eq-ok _ _ s n h1 in
      let (body, e3, h3, t3) = bind-lift-eq-ok _ _ s n h2 in
      let (h4, t4) = wrapping-eq-ok _ _ s n h3 in
      let (answered, t5) = call-eq-ok _ _ s n h4 in
      record {
        body = body;
        encoding = record {
          gvk = gvk;
          encoded = encoded;
          marshalled = wrap_error-eq-ok _ _ e2;
          explicit = wrap_error-eq-ok _ _ e3;
        };
        answered = answered;
        state = t1 ∙ t2 ∙ t3 ∙ t4 ∙ t5;
      }

  abbrev pub with_references : List F.OwnerReference → Object F → Object F
  with_references refs obj = with_metadata (record (metadata obj) { owner_references = refs }) obj

  pub own-eq-ok :
      (meta m : ObjectMeta F) (s : State F)
      → (own S K meta s).0 ≡ ok m
      → (refs : List F.OwnerReference) × (K.set_controller_reference s.inst meta ≡ ok refs)
        × (m ≡ record meta { owner_references = refs })
        × ((own S K meta s).1 ≡ s)
  unfolding ◌>>=◌
  own-eq-ok meta m s h = elim (Result-cases (K.set_controller_reference s.inst meta)) [
    | inl (refs, set) ↦ (refs, set, ground arith, ground arith)
    | inr (e, failed) ↦ absurd (ground arith)
  ]

  Sent-with_references :
      (obj : Object F) (refs : List F.OwnerReference) (m : ObjectMeta F) (s u t : State F) (n : ℤ)
      → m ≡ record (metadata obj) { owner_references = refs }
      → u ≡ s
      → (apply S K (with_metadata m obj) u).0 ≡ ok n
      → t ≡ (apply S K (with_metadata m obj) u).1
      → Sent (with_references refs obj) s n t
  Sent-with_references obj refs m s u t n is still h end =
      rw end (rw (is, still) (apply-Sent (with_references refs obj) s n (rw (is, still) at h)))

  -- A successful apply under a controller reference has sent the object with the owner
  -- references that `SetControllerReference` gives it.
  pub apply_owned-Sent :
      (obj : Object F) (s : State F) (n : ℤ)
      → (apply_owned S K obj s).0 ≡ ok n
      → (refs : List F.OwnerReference) × (K.set_controller_reference s.inst (metadata obj)
          ≡ ok refs)
        × Sent (with_references refs obj) s n (apply_owned S K obj s).1
  unfolding apply_owned
  apply_owned-Sent obj s n h =
      let (m, e, h1, t1) = bind-eq-ok _ _ s n h in
      let (refs, set, is, still) = own-eq-ok _ m s e in
      (refs, set, Sent-with_references obj refs m s _ _ n is still h1 t1)

  own_if-eq-ok :
      (b : Bool) (meta m : ObjectMeta F) (s : State F)
      → (b ≡ true) ↔ (s.inst.spec.deletion_policy ≡ "Delete")
      → ((if b then own S K meta else pure meta) s).0 ≡ ok m
      → (refs : List F.OwnerReference) × (s.inst.spec.deletion_policy ≡ "Delete"
          → K.set_controller_reference s.inst meta ≡ ok refs)
        × (s.inst.spec.deletion_policy ≢ "Delete" → refs ≡ meta.owner_references)
        × (m ≡ record meta { owner_references = refs })
        × (((if b then own S K meta else pure meta) s).1 ≡ s)
  unfolding ◌>>=◌
  own_if-eq-ok true meta m s iff h =
      let (refs, set, is, still) = own-eq-ok meta m s h in
      (refs, λ _. set, λ not_delete. absurd (not_delete (iff.0 refl)), is, still)
  own_if-eq-ok false meta m s iff h =
      (meta.owner_references, λ is_delete. cc (iff.1 is_delete), λ _. refl, cc, refl)

  pub own_by_policy-eq-ok :
      (meta m : ObjectMeta F) (s : State F)
      → (own_by_policy S K meta s).0 ≡ ok m
      → (refs : List F.OwnerReference) × (s.inst.spec.deletion_policy ≡ "Delete"
          → K.set_controller_reference s.inst meta ≡ ok refs)
        × (s.inst.spec.deletion_policy ≢ "Delete" → refs ≡ meta.owner_references)
        × (m ≡ record meta { owner_references = refs })
        × ((own_by_policy S K meta s).1 ≡ s)
  unfolding ◌>>=◌
  own_by_policy-eq-ok meta m s h =
      own_if-eq-ok _ meta m s (deletion_policy-delete_iff s.inst.spec) h

  -- A successful apply under the deletion policy has sent the object, under Delete with the
  -- owner references that `SetControllerReference` gives it, and under any other policy with
  -- those that it has.
  pub apply_stateful-Sent :
      (obj : Object F) (s : State F) (n : ℤ)
      → (apply_stateful S K obj s).0 ≡ ok n
      → (refs : List F.OwnerReference) × (s.inst.spec.deletion_policy ≡ "Delete"
          → K.set_controller_reference s.inst (metadata obj) ≡ ok refs)
        × (s.inst.spec.deletion_policy ≢ "Delete" → refs ≡ (metadata obj).owner_references)
        × Sent (with_references refs obj) s n (apply_stateful S K obj s).1
  unfolding apply_stateful
  apply_stateful-Sent obj s n h =
      let (m, e, h1, t1) = bind-eq-ok _ _ s n h in
      let (refs, on_delete, otherwise, is, still) = own_by_policy-eq-ok _ m s e in
      (refs, on_delete, otherwise, Sent-with_references obj refs m s _ _ n is still h1 t1)
