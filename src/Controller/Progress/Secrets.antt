-- ===== src/Controller/Progress/Secrets.antt =====
-- The secrets step succeeds where its surroundings do not fail
-- (internal/controller/paperlessinstance_controller.go, internal/controller/deletion_policy.go).
use paperless_ngx_operator.Controller.Progress.Ownership.{reconcile_secret_ownership-at}
use paperless_ngx_operator.Prelude.{
  ℕ, true, String, Option, none, some, List, [], ◌∷◌, ◌∙◌, ◌<>◌, ◌≤◌, ap, sym, arith, length,
  wrap_error, Error, Result, ok, err, ◌≡◌, refl, ◌⊎◌, inl, inr, is_empty, Bool-cases, Option-cases,
  is_some, not, ◌||◌,
}
use paperless_ngx_operator.Kube.{Foreign}
use paperless_ngx_operator.Kube.Objects.{ObjectKey, Secret}
use paperless_ngx_operator.Api.Types.{PaperlessInstance}
use paperless_ngx_operator.Api.Defaults.{is_enabled}
use paperless_ngx_operator.Resources.Names.{derived_name, secret_key_name, admin_secret_name}
use paperless_ngx_operator.Resources.Secrets.{
  secret_key, admin_secret, random_key, validate_name, secret_key_length, admin_password_length,
}
use paperless_ngx_operator.Controller.Client.{
  Server, Machinery, History, State, get_secret, create_secret, is_not_found, ◌>>=◌,
}
use paperless_ngx_operator.Controller.Secrets.Trace.{
  own_by_policy-state, own_by_policy-key, secret_key-key, admin_secret-key,
}
use paperless_ngx_operator.Controller.Runs.{SameButStatus}
use paperless_ngx_operator.Controller.Secrets.{
  Builder, key_of, create_generated, after_get, ensure_generated_secret, reconcile_secrets,
}
use paperless_ngx_operator.Controller.Progress.{
  derived_name-SameButStatus, IsOwnable, Late, Late-asked, Works, Serves, IsReconcilable, Succeeds,
  Succeeds-gets, Succeeds-wrapping, Succeeds-bind,
}
use paperless_ngx_operator.Controller.Progress.Apply.{own_by_policy-Succeeds}

-- A builder that does not fail for an instance, with any source of randomness that does not.
abbrev pub BuildsFor : {F : Foreign} → Builder F → PaperlessInstance F → Type 0
BuildsFor {F} build j =
    (read : ℕ → Result (List ℕ))
    → ((k : ℕ) → (raw : List ℕ) × (read k ≡ ok raw))
    → (o : Option (Secret F)) × (build read j ≡ ok o)

module _ {F : Foreign} where
  secret_key-BuildsFor :
      (j : PaperlessInstance F)
      → is_empty (F.is_dns1123_subdomain (secret_key_name j)) ≡ true
      → BuildsFor secret_key j
  unfolding secret_key validate_name random_key derived_name
  secret_key-BuildsFor j valid read random =
      let (raw, is) = random secret_key_length in
      elim (Option-cases j.spec.secret_key_secret_ref) [
        | inl none_set ↦ rw (none_set, valid, is) (_, refl)
        | inr (r, set) ↦ (none, rw set refl)
      ]

  admin_secret-BuildsFor :
      (j : PaperlessInstance F)
      → is_empty (F.is_dns1123_subdomain (admin_secret_name j)) ≡ true
      → BuildsFor admin_secret j
  unfolding admin_secret validate_name random_key
  admin_secret-BuildsFor j valid read random =
      let (raw, is) = random admin_password_length in
      elim (Bool-cases
        (not (is_enabled j.spec.admin) || is_some j.spec.admin.password_secret_ref)) [
          | inl given ↦ (none, rw given refl)
          | inr generated ↦ rw (generated, valid, is) (_, refl)
        ]

module _ {F : Foreign} {S : Server F} {K : Machinery F} {n : ℕ} (i : PaperlessInstance F)
    (works : Works K) (serves : Serves S n) where
  -- The rest of the step, right after a Get that has not found the Secret.
  create_generated-at :
      (name : String) (o : Option (Secret F)) (key : ObjectKey) (h : History F) (e : Error)
      (s : State F)
      → Late i n s
      → s.history ≡ get_secret key ∷ h
      → n ≤ length h
      → S.secret_answer h key ≡ err e
      → is_not_found e ≡ true
      → ((c : Secret F) → o ≡ some c → IsOwnable i c.metadata × (key_of c.metadata ≡ key))
      → ((create_generated S K name o s).0 ≡ ok tt) × Late i n (create_generated S K name o s).1
  unfolding create_generated ◌>>=◌
  create_generated-at name none key h e s l asked late answered missing fits = (refl, l)
  create_generated-at name (some c) key h e s l asked late answered missing fits =
      let (ownable, keyed) = fits c refl in
      let (m, is, u, end) = (own_by_policy-Succeeds i works serves c.metadata ownable).at s l in
      let still = own_by_policy-state S K c.metadata s in
      let named : key_of m ≡ key = own_by_policy-key S K c.metadata m s is ∙ keyed in
      let owned : Secret F = record c { metadata = m } in
      let done = serves.created h owned e late (ap (S.secret_answer h) named ∙ answered) missing in
      let before : s.history ≡ get_secret (key_of m) ∷ h =
        asked ∙ ap (λ k. get_secret k ∷ h) (sym named) in
      (
        rw (is, still)
            (ap (λ r. wrap_error ("creating secret " <> name) (S.create_answer r owned)) before
              ∙ ap (wrap_error ("creating secret " <> name)) done),
        rw (is, still) (Late-asked (create_secret owned) s l),
      )

  -- What a builder builds stands at the key that was asked for, without owners.
  abbrev FitsKey : Builder F → String → Type 0
  FitsKey build name =
      (j : PaperlessInstance F) (read : ℕ → Result (List ℕ)) (c : Secret F)
      → SameButStatus i j
      → build read j ≡ ok (some c)
      → (key_of c.metadata ≡ record { name = name; namespace = i.namespace })
        × (c.metadata.owner_references ≡ [])

  module _ (name : String) (build : Builder F)
      (builds : (j : PaperlessInstance F) → SameButStatus i j → BuildsFor build j)
      (fits : FitsKey build name) where
    abbrev key_in : String → ObjectKey
    key_in namespace = record { name = name; namespace = namespace }

    after_get-at :
        (r : Result (Secret F)) (namespace : String) (h : History F) (s : State F)
        → namespace ≡ i.namespace
        → Late i n s
        → s.history ≡ get_secret (key_in namespace) ∷ h
        → n ≤ length h
        → S.secret_answer h (key_in namespace) ≡ r
        → ((c : Secret F) × (r ≡ ok c) × (key_of c.metadata ≡ key_in namespace))
          ⊎ ((e : Error) × (r ≡ err e) × (is_not_found e ≡ true))
        → ((after_get S K name build r s).0 ≡ ok tt) × Late i n (after_get S K name build r s).1
    unfolding after_get ◌>>=◌
    after_get-at r namespace h s here l asked late answered (inl (c, is, keyed)) =
        let (done, end) =
          reconcile_secret_ownership-at i works serves c (key_in namespace) h keyed here late
            (answered ∙ is) s l asked in
        (rw is done, rw is end)
    after_get-at r namespace h s here l asked late answered (inr (e, is, missing)) =
        let (o, built) =
          builds s.inst l.same_spec (S.rand_read s.history)
            (λ k. serves.random s.history k l.late) in
        let (done, end) =
          create_generated-at name o (key_in namespace) h e s l asked late (answered ∙ is) missing
            (λ c some_.
              let (keyed, ownerless) =
                fits s.inst (S.rand_read s.history) c l.same_spec
                  (built ∙ ap {B = Result (Option (Secret F))} ok some_) in
              (
                (ap (λ (k : ObjectKey). k.namespace) keyed, ownerless),
                keyed ∙ ap key_in (sym here),
              )) in
        (rw (is, missing, built) done, rw (is, missing, built) end)

    ensure_generated_secret-Succeeds :
        Succeeds i n (λ _. Unit) (ensure_generated_secret S K name build)
    unfolding ensure_generated_secret ◌>>=◌
    ensure_generated_secret-Succeeds = record {
      at = λ s l.
          let key : ObjectKey = key_in s.inst.namespace in
          let asked : State F = record s { history = get_secret key ∷ s.history } in
          let (done, end) =
            after_get-at (S.secret_answer s.history key) s.inst.namespace s.history asked
              (sym l.same_spec.namespace) (Late-asked (get_secret key) s l) refl l.late refl
              (serves.secret_read s.history key l.late) in
          (tt, done, tt, end);
    }

  secret_key-FitsKey :
      (k : PaperlessInstance F) → SameButStatus i k → FitsKey secret_key (secret_key_name k)
  unfolding secret_key
  secret_key-FitsKey k same_ j read c version h = (
    secret_key-key S K read j c h
        ∙ rw
            (
              derived_name-SameButStatus version "secret-key",
              derived_name-SameButStatus same_ "secret-key",
              sym version.namespace,
            )
            refl,
    ground arith,
  )

  admin_secret-FitsKey :
      (k : PaperlessInstance F) → SameButStatus i k → FitsKey admin_secret (admin_secret_name k)
  unfolding admin_secret
  admin_secret-FitsKey k same_ j read c version h = (
    admin_secret-key S K read j c h
        ∙ rw
            (
              derived_name-SameButStatus version "admin",
              derived_name-SameButStatus same_ "admin",
              sym version.namespace,
            )
            refl,
    ground arith,
  )

  pub reconcile_secrets-Succeeds :
      IsReconcilable S n i → Succeeds i n (λ _. Unit) (reconcile_secrets S K)
  unfolding reconcile_secrets
  reconcile_secrets-Succeeds fit =
      Succeeds-bind {Q = λ j. SameButStatus i j} _ _ (Succeeds-gets _ λ s l. l.same_spec)
        λ j version.
          Succeeds-bind _ _
            (Succeeds-wrapping _ _ (
              ensure_generated_secret-Succeeds (secret_key_name j) secret_key
                (λ k same_.
                  secret_key-BuildsFor k
                    (rw (derived_name-SameButStatus same_ _) fit.secret_key_valid))
                (secret_key-FitsKey j version)))
            λ _ _. Succeeds-wrapping _ _ (
              ensure_generated_secret-Succeeds (admin_secret_name j) admin_secret
                (λ k same_.
                  admin_secret-BuildsFor k
                    (rw (derived_name-SameButStatus same_ _) fit.admin_valid))
                (admin_secret-FitsKey j version))
