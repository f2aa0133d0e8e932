-- ===== src/Controller/SecretStore/Ensured.antt =====
-- What a successful `ensureGeneratedSecret` leaves in the store
-- (internal/controller/paperlessinstance_controller.go).
use paperless_ngx_operator.Prelude.{
  true, String, Option, none, some, List, [], ◌∷◌, Result, ok, err, Error, ◌≡◌, ◌≢◌, refl, sym, ◌∙◌,
  ap,
}
use paperless_ngx_operator.Kube.{Foreign}
use paperless_ngx_operator.Kube.Objects.{ObjectKey, ObjectMeta, Secret}
use paperless_ngx_operator.Controller.Client.{
  Server, Machinery, History, State, get_secret, create_secret, ◌>>=◌, continue, is_not_found,
}
use paperless_ngx_operator.Controller.Inversion.{bind-eq-ok, wrapping-eq-ok, call-eq-ok}
use paperless_ngx_operator.Controller.Apply.{own_by_policy}
use paperless_ngx_operator.Controller.Apply.Success.{own_by_policy-eq-ok}
use paperless_ngx_operator.Controller.Secrets.{
  Builder, key_of, create_generated, after_get, ensure_generated_secret,
}
use paperless_ngx_operator.Controller.Secrets.Ownership.{reconcile_secret_ownership-Adopted}
use paperless_ngx_operator.Controller.SecretStore.{View, IsStore}
use paperless_ngx_operator.Controller.SecretStore.Policy.{
  Controls, Builds, stored, unneeded, Ensured, get-frame, by_policy, adoption_settles,
}

module _ {F : Foreign} (S : Server F) (K : Machinery F) (view : View F) (store : IsStore S K view)
    (controls : Controls K) where
  put-Ensured :
      (key : ObjectKey) (build : Builder F) (c : Secret F) (m : ObjectMeta F)
      (refs : List F.OwnerReference) (s v u : State F)
      → key_of c.metadata ≡ key
      → c.metadata.owner_references ≡ []
      → (s.inst.spec.deletion_policy ≡ "Delete"
          → K.set_controller_reference s.inst c.metadata ≡ ok refs)
      → (s.inst.spec.deletion_policy ≢ "Delete" → refs ≡ c.metadata.owner_references)
      → m ≡ record (c.metadata) { owner_references = refs }
      → v ≡ record s { history = get_secret key ∷ s.history }
      → S.create_answer v.history (record c { metadata = m }) ≡ ok tt
      → u ≡ record v { history = create_secret (record c { metadata = m }) ∷ v.history }
      → Ensured S K view key build s u
  put-Ensured key build c m refs s v u keyed ownerless on_delete otherwise is begun answered end =
      let asked : History F = get_secret key ∷ s.history in
      let made : Secret F = record c { metadata = m } in
      let at_key : key_of m ≡ key = ap key_of is ∙ keyed in
      let (t, put, held, owners) =
        store.created asked made
          (ap (λ (x : State F). S.create_answer x.history made) (sym begun) ∙ answered) in
      record {
        history = create_secret made ∷ asked;
        state =
            end ∙ ap (λ (x : State F). record x { history = create_secret made ∷ x.history }) begun;
        settles = stored (ap (view (create_secret made ∷ asked)) (sym at_key) ∙ put) (
            by_policy S K view store controls s.inst t.metadata c.metadata refs ownerless on_delete
              otherwise (owners ∙ ap (λ (x : ObjectMeta F). x.owner_references) is));
        others = λ j other.
            store.frame asked (create_secret made) j (λ e. other (sym e ∙ at_key))
            ∙ get-frame S K view store controls s.history key j;
      }

  create_none : (name : String) (s : State F) → (create_generated S K name none s).1 ≡ s
  unfolding create_generated ◌>>=◌
  create_none name s = refl

  created-Ensured :
      (name : String) (key : ObjectKey) (build : Builder F) (c : Secret F) (s : State F)
      → key_of c.metadata ≡ key
      → c.metadata.owner_references ≡ []
      → (create_generated S K name (some c) (record s { history = get_secret key ∷ s.history })).0
        ≡ ok tt
      → Ensured S K view key build s
          (create_generated S K name (some c) (record s { history = get_secret key ∷ s.history })).1
  unfolding create_generated
  created-Ensured name key build c s keyed ownerless h =
      let asked : State F = record s { history = get_secret key ∷ s.history } in
      let (m, e1, h1, t1) = bind-eq-ok _ _ asked tt h in
      let (refs, on_delete, otherwise, is, still) = own_by_policy-eq-ok S K c.metadata m asked e1 in
      let (h2, t2) = wrapping-eq-ok _ _ _ tt h1 in
      let (answered, t3) = call-eq-ok _ _ _ tt h2 in
      put-Ensured key build c m refs s (own_by_policy S K c.metadata asked).1 _ keyed ownerless
        on_delete otherwise is still answered (t1 ∙ t2 ∙ t3)

  built-Ensured :
      (name : String) (key : ObjectKey) (build : Builder F) (s : State F)
      (r : Result (Option (Secret F)))
      → Builds build s.inst key
      → view s.history key ≡ none
      → build (S.rand_read (get_secret key ∷ s.history)) s.inst ≡ r
      → (continue r
          (create_generated S K name)
          (record s { history = get_secret key ∷ s.history })).0
        ≡ ok tt
      → Ensured S K view key build s
          (continue r
            (create_generated S K name)
            (record s { history = get_secret key ∷ s.history })).1
  built-Ensured name key build s (ok none) builds lacks is h = record {
    history = get_secret key ∷ s.history;
    state = create_none name _;
    settles =
        unneeded (get-frame S K view store controls s.history key key ∙ lacks)
          (λ read. builds.decided _ read is);
    others = λ j other. get-frame S K view store controls s.history key j;
  }
  built-Ensured name key build s (ok (some c)) builds lacks is h =
      created-Ensured name key build c s (builds.keyed _ c is) (builds.ownerless _ c is) h
  built-Ensured name key build s (err e) builds lacks is h = cc

  generated-Ensured :
      (name : String) (key : ObjectKey) (build : Builder F) (s : State F) (e : Error)
      → Builds build s.inst key
      → view s.history key ≡ none
      → is_not_found e ≡ true
      → (after_get S K name build (err e) (record s { history = get_secret key ∷ s.history })).0
        ≡ ok tt
      → Ensured S K view key build s
          (after_get S K name build (err e) (record s { history = get_secret key ∷ s.history })).1
  unfolding after_get ◌>>=◌
  generated-Ensured name key build s e builds lacks missing h =
      rw missing (built-Ensured name key build s _ builds lacks refl (rw missing at h))

  answered-Ensured :
      (name : String) (key : ObjectKey) (build : Builder F) (s : State F) (o : Option (Secret F))
      → Builds build s.inst key
      → view s.history key ≡ o
      → (after_get S K name build
          (S.secret_answer s.history key)
          (record s { history = get_secret key ∷ s.history })).0
        ≡ ok tt
      → Ensured S K view key build s
          (after_get S K name build
            (S.secret_answer s.history key)
            (record s { history = get_secret key ∷ s.history })).1
  unfolding after_get
  answered-Ensured name key build s none builds at h =
      let (e, answer, missing) = store.missing s.history key at in
      rw answer (generated-Ensured name key build s e builds at missing (rw answer at h))
  answered-Ensured name key build s (some t) builds at h =
      let (answer, keyed) = store.found s.history key t at in
      rw answer (
        adoption_settles S K view store controls key build t s _ at keyed
          (reconcile_secret_ownership-Adopted S K t _ (rw answer at h)))

  -- A successful step leaves the Secret settled: stored and owned as the policy says, or not
  -- needed. It writes no other Secret.
  pub ensure_generated_secret-Ensured :
      (name : String) (build : Builder F) (s : State F)
      → Builds build s.inst (record { name = name; namespace = s.inst.namespace })
      → (ensure_generated_secret S K name build s).0 ≡ ok tt
      → Ensured S K view
          (record { name = name; namespace = s.inst.namespace })
          build
          s
          (ensure_generated_secret S K name build s).1
  unfolding ensure_generated_secret ◌>>=◌
  ensure_generated_secret-Ensured name build s builds h =
      answered-Ensured name (record { name = name; namespace = s.inst.namespace }) build s _ builds
        refl h
