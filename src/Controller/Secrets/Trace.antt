-- ===== src/Controller/Secrets/Trace.antt =====
-- The requests about Secrets: a create follows a Get that found nothing, and an existing Secret
-- is patched in its owner references only.
use paperless_ngx_operator.Prelude.{
  ℕ, Bool, true, false, String, Option, none, some, List, ◌∷◌, Error, Result, ok, err, ◌≡◌, refl,
  ◌∙◌, ap, arith, inl, inr, Bool-cases, wrap_error-eq-ok,
}
use paperless_ngx_operator.Kube.{Foreign}
use paperless_ngx_operator.Kube.Objects.{Secret, ObjectMeta, ObjectKey}
use paperless_ngx_operator.Api.Types.{PaperlessInstance}
use paperless_ngx_operator.Resources.Names.{derived_name, secret_key_name, admin_secret_name}
use paperless_ngx_operator.Resources.Secrets.{secret_key, admin_secret}
use paperless_ngx_operator.Controller.Client.{
  Server, Machinery, History, State, get_secret, is_not_found, ◌>>=◌, current, wrapping,
}
use paperless_ngx_operator.Controller.Runs.{
  Runs, Keeps, Runs-call, Runs-wrapping, Keeps-raise, Runs-bind_still, Runs-bind, Runs-trans,
  Keeps-pure, Keeps-bind, Keeps-bind-lift, Keeps-wrapping, Keeps-call, keeps_rules,
}
use paperless_ngx_operator.Controller.Apply.{own_by_policy}
use paperless_ngx_operator.Controller.Permitted.{Permitted}
use paperless_ngx_operator.Controller.Secrets.{
  Builder, key_of, wanted_references, patch_ownership, reconcile_secret_ownership, generate,
  create_generated, after_get, ensure_generated_secret, reconcile_secrets,
}

module _ {F : Foreign} (S : Server F) (K : Machinery F) where
  wanted_references-Keeps :
      (want : Bool) (meta : ObjectMeta F)
      → Keeps (Permitted S K false) (wanted_references S K want meta)
  wanted_references-Keeps true meta = search keeps_rules
  wanted_references-Keeps false meta = search keeps_rules

  patch_ownership-Keeps :
      (want : Bool) (secret : Secret F)
      → Keeps (Permitted S K false) (patch_ownership S K want secret)
  unfolding patch_ownership
  patch_ownership-Keeps want secret =
      Keeps-bind _ _ (wanted_references-Keeps want secret.metadata) λ refs.
        Keeps-bind-lift _ _ λ list _.
          Keeps-bind-lift _ _
            λ body b. Keeps-wrapping _ _ (Keeps-call _ _ λ h. (list, wrap_error-eq-ok _ _ b))

  reconcile_secret_ownership-Keeps :
      (secret : Secret F) → Keeps (Permitted S K false) (reconcile_secret_ownership S K secret)
  unfolding reconcile_secret_ownership
  reconcile_secret_ownership-Keeps secret = search (keeps_rules, patch_ownership-Keeps)

  -- Ownership by policy makes no request, and leaves the name and the namespace.
  pub own_by_policy-state : (meta : ObjectMeta F) (t : State F) → (own_by_policy S K meta t).1 ≡ t
  unfolding ◌>>=◌
  own_by_policy-state meta t = ground arith

  pub own_by_policy-key :
      (meta m : ObjectMeta F) (t : State F)
      → (own_by_policy S K meta t).0 ≡ ok m
      → key_of m ≡ key_of meta
  unfolding ◌>>=◌
  own_by_policy-key meta m t h = ground arith

  create_generated-Runs :
      (name : String) (o : Option (Secret F)) (key : ObjectKey) (t : State F) (h : History F)
      (e : Error)
      → ((s : Secret F) → o ≡ some s → key_of s.metadata ≡ key)
      → t.history ≡ get_secret key ∷ h
      → S.secret_answer h key ≡ err e
      → is_not_found e ≡ true
      → Runs (Permitted S K false) t (create_generated S K name o t).1
  unfolding create_generated
  create_generated-Runs name none key t h e keyed asked answered missing = (Keeps-pure tt).at t
  create_generated-Runs name (some s) key t h e keyed asked answered missing =
      Runs-bind_still _ _ t (own_by_policy-state s.metadata t) λ m owned.
        let same_key : key_of m ≡ key = own_by_policy-key s.metadata m t owned ∙ keyed s refl in
        Runs-wrapping _ _ t (
          Runs-call _ _ t (record {
            rest = h;
            error = e;
            asked = rw same_key asked;
            answered = rw same_key answered;
            missing = missing;
          }))

  pub generate-state : (build : Builder F) (t : State F) → (generate S K build t).1 ≡ t
  unfolding ◌>>=◌
  generate-state build t = refl

  pub generate-built :
      (build : Builder F) (t : State F) (o : Option (Secret F))
      → (generate S K build t).0 ≡ ok o
      → build (S.rand_read t.history) t.inst ≡ ok o
  unfolding ◌>>=◌
  generate-built build t o h = h

  after_get-Runs :
      (name : String) (build : Builder F) (r : Result (Secret F)) (key : ObjectKey) (t : State F)
      (h : History F)
      → ((read : ℕ → Result (List ℕ)) (s : Secret F)
          → build read t.inst ≡ ok (some s)
          → key_of s.metadata ≡ key)
      → t.history ≡ get_secret key ∷ h
      → S.secret_answer h key ≡ r
      → Runs (Permitted S K false) t (after_get S K name build r t).1
  unfolding after_get
  after_get-Runs name build (ok existing) key t h keyed asked answered =
      (reconcile_secret_ownership-Keeps existing).at t
  after_get-Runs name build (err e) key t h keyed asked answered =
      elim (Bool-cases (is_not_found e)) [
        | inl missing ↦ rw missing (
            Runs-bind_still _ _ t (generate-state build t) λ o built.
              create_generated-Runs name o key t h e
                (λ s is.
                  keyed _ s
                    (generate-built build t o built ∙ ap {B = Result (Option (Secret F))} ok is))
                asked answered missing)
        | inr other ↦ rw other ((Keeps-raise _).at t)
      ]

  ensure_generated_secret-Runs :
      (name : String) (build : Builder F) (s : State F)
      → ((read : ℕ → Result (List ℕ)) (o : Secret F)
          → build read s.inst ≡ ok (some o)
          → key_of o.metadata ≡ record { name = name; namespace = s.inst.namespace })
      → Runs (Permitted S K false) s (ensure_generated_secret S K name build s).1
  unfolding ensure_generated_secret ◌>>=◌
  ensure_generated_secret-Runs name build s keyed =
      let key : ObjectKey = record { name = name; namespace = s.inst.namespace } in
      Runs-trans (Runs-call (λ h. S.secret_answer h key) (get_secret key) s tt)
        (after_get-Runs name build _ key _ s.history keyed refl refl)

  pub secret_key-key :
      (read : ℕ → Result (List ℕ)) (i : PaperlessInstance F) (s : Secret F)
      → secret_key read i ≡ ok (some s)
      → key_of s.metadata ≡ record { name = secret_key_name i; namespace = i.namespace }
  unfolding secret_key
  secret_key-key read i s h = ground arith

  pub admin_secret-key :
      (read : ℕ → Result (List ℕ)) (i : PaperlessInstance F) (s : Secret F)
      → admin_secret read i ≡ ok (some s)
      → key_of s.metadata ≡ record { name = admin_secret_name i; namespace = i.namespace }
  unfolding admin_secret
  admin_secret-key read i s h = ground arith

  current-state : (s : State F) → (current s).1 ≡ s
  unfolding ◌>>=◌
  current-state s = refl

  current-inst : (s : State F) (i : PaperlessInstance F) → (current s).0 ≡ ok i → i ≡ s.inst
  unfolding ◌>>=◌
  current-inst s i h = cc

  secret_key_step :
      (s : State F) (i : PaperlessInstance F)
      → i ≡ s.inst
      → Runs
          (Permitted S K false)
          s
          (wrapping "ensuring secret key"
            (ensure_generated_secret S K (secret_key_name i) secret_key)
            s).1
  secret_key_step s i is = Runs-wrapping _ _ s (
      ensure_generated_secret-Runs (secret_key_name i) secret_key s
        (λ read o built. rw is (secret_key-key read s.inst o built)))

  admin_secret_step :
      (s t : State F) (i : PaperlessInstance F)
      → i ≡ s.inst
      → Runs (Permitted S K false) s t
      → Runs
          (Permitted S K false)
          t
          (wrapping "ensuring admin secret"
            (ensure_generated_secret S K (admin_secret_name i) admin_secret)
            t).1
  unfolding derived_name
  admin_secret_step s t i is first = Runs-wrapping _ _ t (
      ensure_generated_secret-Runs (admin_secret_name i) admin_secret t
        (λ read o built. rw (is, first.static.name) (admin_secret-key read t.inst o built)))

  pub reconcile_secrets-Keeps : Keeps (Permitted S K false) (reconcile_secrets S K)
  unfolding reconcile_secrets
  reconcile_secrets-Keeps = record {
    at = λ s. Runs-bind_still _ _ s (current-state s) λ inst is.
        let first = secret_key_step s inst (current-inst s inst is) in
        Runs-bind _ _ s first λ _ _. admin_secret_step s _ inst (current-inst s inst is) first;
  }
