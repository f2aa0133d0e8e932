-- ===== src/Controller/SecretStore/Policy.antt =====
-- A Secret that is settled, and how a step settles one that is stored
-- (internal/controller/deletion_policy.go).
use paperless_ngx_operator.Prelude.{
  ℕ, Bool, true, false, ◌==◌, none, some, List, [], ◌∷◌, Result, ok, ◌≡◌, ◌≢◌, ◌↔◌, refl, sym, ◌∙◌,
  ap, inl, inr, arith, eq_iff, Bool-cases,
}
use paperless_ngx_operator.Kube.{Foreign}
use paperless_ngx_operator.Kube.Objects.{ObjectKey, ObjectMeta, Secret}
use paperless_ngx_operator.Api.Types.{PaperlessInstance}
use paperless_ngx_operator.Controller.Client.{
  Server, Machinery, History, State, get_secret, merge_patch_secret,
}
use paperless_ngx_operator.Controller.References.{is_controlled_by, ownership_patch}
use paperless_ngx_operator.Kube.Json.{lookup}
use paperless_ngx_operator.Controller.Secrets.{Builder, key_of}
use paperless_ngx_operator.Controller.Secrets.Ownership.{Patched, Adopted, settled, owned, released}
use paperless_ngx_operator.Controller.SecretStore.{View, IsStore}

-- `SetControllerReference` makes the instance the controller, and an object without owners has
-- none.
pub record Controls {F : Foreign} (K : Machinery F) : Type 0 where
  pub owned :
      (i : PaperlessInstance F) (meta : ObjectMeta F) (refs : List F.OwnerReference)
      → K.set_controller_reference i meta ≡ ok refs
      → (r : F.OwnerReference) × (F.get_controller_of refs ≡ some r) × (F.uid r ≡ i.uid)
  pub nobody : F.get_controller_of [] ≡ none

-- A builder whose Secrets have the key, no owner and no encoded data, and which builds one or
-- none whatever the random bytes are.
pub record Builds {F : Foreign} (build : Builder F) (i : PaperlessInstance F) (key : ObjectKey)
    : Type 0 where
  pub keyed :
      (read : ℕ → Result (List ℕ)) (s : Secret F)
      → build read i ≡ ok (some s)
      → key_of s.metadata ≡ key
  pub ownerless :
      (read : ℕ → Result (List ℕ)) (s : Secret F)
      → build read i ≡ ok (some s)
      → s.metadata.owner_references ≡ []
  pub decided :
      (read other : ℕ → Result (List ℕ)) → build read i ≡ ok none → build other i ≡ ok none

module _ {F : Foreign} (S : Server F) (K : Machinery F) (view : View F) where
  -- A Secret is stored at the key, which the instance controls exactly under the policy Delete,
  -- or none is stored and none is built.
  pub data Settled (key : ObjectKey) (build : Builder F) (i : PaperlessInstance F) (h : History F)
      : Type 0 where
    stored :
        {t : Secret F}
        → view h key ≡ some t
        → (is_controlled_by t.metadata i ≡ true) ↔ (i.spec.deletion_policy ≡ "Delete")
        → Settled key build i h
    unneeded :
        view h key ≡ none
        → ((read : ℕ → Result (List ℕ)) → build read i ≡ ok none)
        → Settled key build i h

  -- The Secret is settled after the step, which has written no other.
  pub record Ensured (key : ObjectKey) (build : Builder F) (s t : State F) : Type 0 where
    pub history : History F
    pub state : t ≡ record s { history = history }
    pub settles : Settled key build s.inst history
    pub others : (j : ObjectKey) → j ≢ key → view history j ≡ view s.history j

  module _ (store : IsStore S K view) (controls : Controls K) where
    pub controlled :
        (i : PaperlessInstance F) (meta given : ObjectMeta F) (refs : List F.OwnerReference)
        → K.set_controller_reference i given ≡ ok refs
        → meta.owner_references ≡ refs
        → is_controlled_by meta i ≡ true
    unfolding is_controlled_by
    controlled i meta given refs set is =
        let (r, of, same) = controls.owned i given refs set in
        rw (is, of, is_controlled_by) (ground (arith, eq_iff (F.uid r) i.uid))

    pub uncontrolled :
        (i : PaperlessInstance F) (meta : ObjectMeta F)
        → meta.owner_references ≡ []
        → is_controlled_by meta i ≡ false
    unfolding is_controlled_by
    uncontrolled i meta is = rw (is, controls.nobody, is_controlled_by) refl

    pub get-frame : (h : History F) (key j : ObjectKey) → view (get_secret key ∷ h) j ≡ view h j
    get-frame h key j = store.frame h (get_secret key) j (λ e. e)

    patch_settles :
        (key : ObjectKey) (build : Builder F) (want : Bool) (t : Secret F) (s u : State F)
        → view s.history key ≡ some t
        → key_of t.metadata ≡ key
        → (p : Patched S K want t (record s { history = get_secret key ∷ s.history }) u)
        → ((meta : ObjectMeta F)
            → meta.owner_references ≡ p.refs
            → (is_controlled_by meta s.inst ≡ true) ↔ (s.inst.spec.deletion_policy ≡ "Delete"))
        → Ensured key build s u
    unfolding lookup
    patch_settles key build want t s u at keyed p iff =
        let asked : History F = get_secret key ∷ s.history in
        let (v, put, has) =
          store.patched asked t (key_of t.metadata) p.refs p.list (ownership_patch p.list) p.body
            (ap (view asked) keyed ∙ get-frame s.history key key ∙ at) p.encoded refl p.marshalled
            p.answered in
        record {
          history = merge_patch_secret (key_of t.metadata) p.body ∷ asked;
          state = p.state;
          settles =
              stored
                (ap (view (merge_patch_secret (key_of t.metadata) p.body ∷ asked)) (sym keyed)
                  ∙ put)
                (iff v.metadata has);
          others = λ j other.
              store.frame asked (merge_patch_secret (key_of t.metadata) p.body) j
                (λ e. other (sym e ∙ keyed))
              ∙ get-frame s.history key j;
        }

    pub adoption_settles :
        (key : ObjectKey) (build : Builder F) (t : Secret F) (s u : State F)
        → view s.history key ≡ some t
        → key_of t.metadata ≡ key
        → Adopted S K t (record s { history = get_secret key ∷ s.history }) u
        → Ensured key build s u
    adoption_settles key build t s u at keyed (settled iff) = record {
      history = get_secret key ∷ s.history;
      state = refl;
      settles = stored (get-frame s.history key key ∙ at) iff;
      others = λ j other. get-frame s.history key j;
    }
    adoption_settles key build t s u at keyed (owned is_delete free p) =
        patch_settles key build true t s u at keyed p
          λ meta is. ((λ _. is_delete), λ _. controlled s.inst meta _ p.refs p.wanted is)
    adoption_settles key build t s u at keyed (released not_delete has p) =
        patch_settles key build false t s u at keyed p λ meta is.
          ((λ yes_. cc (uncontrolled s.inst meta (is ∙ p.wanted))), λ d. absurd (not_delete d))

    pub by_policy :
        (i : PaperlessInstance F) (meta given : ObjectMeta F) (refs : List F.OwnerReference)
        → given.owner_references ≡ []
        → (i.spec.deletion_policy ≡ "Delete" → K.set_controller_reference i given ≡ ok refs)
        → (i.spec.deletion_policy ≢ "Delete" → refs ≡ given.owner_references)
        → meta.owner_references ≡ refs
        → (is_controlled_by meta i ≡ true) ↔ (i.spec.deletion_policy ≡ "Delete")
    by_policy i meta given refs ownerless on_delete otherwise is =
        elim (Bool-cases (i.spec.deletion_policy == "Delete")) [
          | inl same ↦
              let d : i.spec.deletion_policy ≡ "Delete" = (eq_iff _ _).0 same in
              ((λ _. d), λ _. controlled i meta given refs (on_delete d) is)
          | inr other ↦
              let n : i.spec.deletion_policy ≢ "Delete" =
                λ d. ground (arith, eq_iff i.spec.deletion_policy "Delete") in
              ((λ c. cc (uncontrolled i meta (is ∙ otherwise n ∙ ownerless))), λ d. absurd (n d))
        ]
