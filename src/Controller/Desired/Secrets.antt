-- ===== src/Controller/Desired/Secrets.antt =====
-- The Secrets that a reconcile writes, however it ends
-- (internal/controller/paperlessinstance_controller.go, internal/controller/deletion_policy.go).
use paperless_ngx_operator.Prelude.{
  ℕ, Bool, true, false, String, Option, none, some, List, ◌∷◌, Result, ok, err, ◌≡◌, refl, sym, ◌∙◌,
  ap, inl, inr, Bool-cases, if◌then◌else◌,
}
use paperless_ngx_operator.Kube.{Foreign}
use paperless_ngx_operator.Kube.Objects.{Secret, ObjectKey}
use paperless_ngx_operator.Api.Types.{PaperlessInstance}
use paperless_ngx_operator.Resources.Names.{secret_key_name, admin_secret_name}
use paperless_ngx_operator.Resources.Secrets.{secret_key, admin_secret}
use paperless_ngx_operator.Controller.Client.{
  Server, Machinery, Request, History, State, M, get_instance, get_secret, get_crd, create_secret,
  apply_patch, merge_patch_secret, patch_status, is_not_found, pure, ◌>>=◌,
}
use paperless_ngx_operator.Controller.Runs.{
  SameButStatus, Runs, Keeps, Runs-call, Runs-wrapping, Keeps-raise, Runs-bind_still, Runs-trans,
  Keeps-pure, Keeps-bind, Keeps-bind-lift, Keeps-wrapping, Keeps-call, Keeps-gets, Grows, same,
  more, Grows-trans, keeps_rules,
}
use paperless_ngx_operator.Controller.Runs.From.{
  From, From-Keeps, From-bind, From-current, From-wrapping, From-attempt,
}
use paperless_ngx_operator.Controller.Apply.{apply}
use paperless_ngx_operator.Controller.Permitted.{Allows}
use paperless_ngx_operator.Controller.Secrets.{
  Builder, key_of, wanted_references, patch_ownership, reconcile_secret_ownership, create_generated,
  after_get, ensure_generated_secret, reconcile_secrets,
}
use paperless_ngx_operator.Controller.Secrets.Trace.{
  own_by_policy-state, own_by_policy-key, generate-state, generate-built, secret_key-key,
  admin_secret-key,
}
use paperless_ngx_operator.Controller.Steps.Trace.{
  mark-Keeps, set_condition-SameButStatus, reconcile_storage-Keeps, reconcile_database-Keeps,
  reconcile_cache-Keeps, reconcile_workload-Keeps,
}
use paperless_ngx_operator.Controller.Reconcile.{
  fail_step, settle, step, after_database, reconcile_instance, patch_status_of, reconcile_found,
  reconcile, seeded,
}
use paperless_ngx_operator.Controller.Progress.{derived_name-SameButStatus}

-- A Get of a Secret answers with one that has the name and the namespace that were asked for.
abbrev pub AnswersKey : {F : Foreign} → Server F → Type 0
AnswersKey {F} S =
    (h : History F) (key : ObjectKey) (s : Secret F)
    → S.secret_answer h key ≡ ok s
    → key_of s.metadata ≡ key

-- A request that creates or patches a Secret at a key of `P` only.
abbrev pub WritesIn : {F : Foreign} → (ObjectKey → Type 0) → Request F → History F → Type 0
WritesIn P (create_secret s) h = P (key_of s.metadata)
WritesIn P (merge_patch_secret key body) h = P key
WritesIn P (apply_patch obj body) h = Unit
WritesIn P (get_instance key) h = Unit
WritesIn P (get_secret key) h = Unit
WritesIn P (get_crd name) h = Unit
WritesIn P (patch_status sent base) h = Unit

-- The keys of the two Secrets of an instance.
abbrev pub key_secret_key : {F : Foreign} → PaperlessInstance F → ObjectKey
key_secret_key i = record { name = secret_key_name i; namespace = i.namespace }

abbrev pub admin_secret_key : {F : Foreign} → PaperlessInstance F → ObjectKey
admin_secret_key i = record { name = admin_secret_name i; namespace = i.namespace }

module _ {F : Foreign} (S : Server F) (K : Machinery F) (P : ObjectKey → Type 0) where
  WritesIn-Allows : (workload : Bool) → Allows S K (WritesIn P) workload
  unfolding apply
  WritesIn-Allows workload = record {
    secret_read = λ key h. tt;
    crd_read = λ name h. tt;
    applied = λ obj allowed operand. Keeps-bind-lift _ _ λ gvk _.
        Keeps-bind-lift _ _
          λ encoded _. Keeps-bind-lift _ _ λ body _. Keeps-wrapping _ _ (Keeps-call _ _ λ h. tt);
  }

  wanted_references-Keeps :
      (want : Bool) (s : Secret F) → Keeps (WritesIn P) (wanted_references S K want s.metadata)
  wanted_references-Keeps true s = search keeps_rules
  wanted_references-Keeps false s = search keeps_rules

  patch_ownership-Keeps :
      (want : Bool) (s : Secret F)
      → P (key_of s.metadata)
      → Keeps (WritesIn P) (patch_ownership S K want s)
  unfolding patch_ownership
  patch_ownership-Keeps want s inside = Keeps-bind _ _ (wanted_references-Keeps want s) λ refs.
      Keeps-bind-lift _ _
        λ list _. Keeps-bind-lift _ _ λ body b. Keeps-wrapping _ _ (Keeps-call _ _ λ h. inside)

  ownership_if_Keeps :
      (same_ want : Bool) (s : Secret F)
      → P (key_of s.metadata)
      → Keeps (WritesIn P) (if same_ then pure tt else patch_ownership S K want s)
  ownership_if_Keeps true want s inside = Keeps-pure tt
  ownership_if_Keeps false want s inside = patch_ownership-Keeps want s inside

  reconcile_secret_ownership-Keeps :
      (s : Secret F) → P (key_of s.metadata) → Keeps (WritesIn P) (reconcile_secret_ownership S K s)
  unfolding reconcile_secret_ownership
  reconcile_secret_ownership-Keeps s inside =
      Keeps-bind _ _ (Keeps-gets _) λ j. ownership_if_Keeps _ _ s inside

  create_generated-Runs :
      (name : String) (o : Option (Secret F)) (t : State F)
      → ((s : Secret F) → o ≡ some s → P (key_of s.metadata))
      → Runs (WritesIn P) t (create_generated S K name o t).1
  unfolding create_generated
  create_generated-Runs name none t inside = (Keeps-pure tt).at t
  create_generated-Runs name (some s) t inside =
      Runs-bind_still _ _ t (own_by_policy-state S K s.metadata t) λ m owned.
        Runs-wrapping _ _ t
          (Runs-call _ _ t (rw (own_by_policy-key S K s.metadata m t owned) (inside s refl)))

  after_get-Runs :
      (name : String) (build : Builder F) (r : Result (Secret F)) (t : State F)
      → ((read : ℕ → Result (List ℕ)) (s : Secret F)
          → build read t.inst ≡ ok (some s)
          → P (key_of s.metadata))
      → ((s : Secret F) → r ≡ ok s → P (key_of s.metadata))
      → Runs (WritesIn P) t (after_get S K name build r t).1
  unfolding after_get
  after_get-Runs name build (ok existing) t built found =
      (reconcile_secret_ownership-Keeps existing (found existing refl)).at t
  after_get-Runs name build (err e) t built found = elim (Bool-cases (is_not_found e)) [
    | inl missing ↦ rw missing (
        Runs-bind_still _ _ t (generate-state S K build t) λ o made.
          create_generated-Runs name o t λ s is.
            built _ s
              (generate-built S K build t o made ∙ ap {B = Result (Option (Secret F))} ok is))
    | inr other ↦ rw other ((Keeps-raise _).at t)
  ]

  module _ (i : PaperlessInstance F) (answers : AnswersKey S) where
    ensure-From :
        (name : String) (build : Builder F)
        → P (record { name = name; namespace = i.namespace })
        → ((read : ℕ → Result (List ℕ)) (j : PaperlessInstance F) (s : Secret F)
            → SameButStatus i j
            → build read j ≡ ok (some s)
            → key_of s.metadata ≡ record { name = name; namespace = j.namespace })
        → From i (WritesIn P) (ensure_generated_secret S K name build)
    unfolding ensure_generated_secret ◌>>=◌
    ensure-From name build inside keyed = record {
      at = λ s version.
          let key : ObjectKey = record { name = name; namespace = s.inst.namespace } in
          let here : P key = rw (sym version.namespace) inside in
          Runs-trans (Runs-call (λ h. S.secret_answer h key) (get_secret key) s tt) (
            after_get-Runs name build (S.secret_answer s.history key) _
              (λ read c built. rw (keyed read s.inst c version built) here)
              (λ c found. rw (answers s.history key c found) here));
    }

    reconcile_secrets-From :
        P (key_secret_key i) → P (admin_secret_key i) → From i (WritesIn P) (reconcile_secrets S K)
    unfolding reconcile_secrets
    reconcile_secrets-From first second = From-current _ λ j version.
        From-bind _ _
          (From-wrapping _ _ (
            ensure-From (secret_key_name j) secret_key
              (rw (derived_name-SameButStatus version "secret-key") first)
              λ read k s same_ built.
                secret_key-key S K read k s built
                ∙ rw
                    (
                      derived_name-SameButStatus same_ "secret-key",
                      derived_name-SameButStatus version "secret-key",
                    )
                    refl))
          λ x. From-wrapping _ _ (
            ensure-From (admin_secret_name j) admin_secret
              (rw (derived_name-SameButStatus version "admin") second)
              λ read k s same_ built.
                admin_secret-key S K read k s built
                ∙ rw
                    (
                      derived_name-SameButStatus same_ "admin",
                      derived_name-SameButStatus version "admin",
                    )
                    refl)

    settle-Keeps :
        {A : Type 0} (reason prefix : String) (r : Result A)
        → Keeps (WritesIn P) (settle S K reason prefix r)
    unfolding fail_step
    settle-Keeps reason prefix (ok a) = search keeps_rules
    settle-Keeps reason prefix (err e) = search (keeps_rules, mark-Keeps S K)

    step-From :
        {A B : Type 0} (reason prefix : String) (m : M F A) (f : A → M F B)
        → From i (WritesIn P) m
        → ((a : A) → From i (WritesIn P) (f a))
        → From i (WritesIn P) (step S K reason prefix m >>= f)
    step-From reason prefix m f k rest =
        From-bind _ _
          (From-bind _ _ (From-attempt _ k) λ r. From-Keeps _ (settle-Keeps reason prefix r)) rest

    after_database-From : (ready : Bool) → From i (WritesIn P) (after_database S K ready)
    unfolding after_database
    after_database-From false = From-Keeps _ (search (keeps_rules, mark-Keeps S K))
    after_database-From true =
        step-From _ _ _ _ (From-Keeps _ (reconcile_cache-Keeps S K (WritesIn-Allows true))) λ x.
          step-From _ _ _ _ (From-Keeps _ (reconcile_workload-Keeps S K (WritesIn-Allows true)))
            λ y. From-Keeps _ (Keeps-pure _)

    reconcile_instance-From :
        P (key_secret_key i) → P (admin_secret_key i) → From i (WritesIn P) (reconcile_instance S K)
    unfolding reconcile_instance
    reconcile_instance-From first second =
        step-From _ _ _ _ (reconcile_secrets-From first second) λ x.
          step-From _ _ _ _ (From-Keeps _ (reconcile_storage-Keeps S K (WritesIn-Allows false)))
            λ y.
              step-From _ _ _ _
                (From-Keeps _ (reconcile_database-Keeps S K (WritesIn-Allows false)))
                after_database-From

    pub reconcile-WritesIn :
        (key : ObjectKey) (h : History F)
        → S.instance_answer h key ≡ ok i
        → P (key_secret_key i)
        → P (admin_secret_key i)
        → Grows (WritesIn P) h (reconcile S K key h).1
    unfolding reconcile reconcile_found patch_status_of ◌>>=◌
    reconcile-WritesIn key h found first second =
        let begun : State F = record { inst = seeded S K i; history = get_instance key ∷ h } in
        rw found (
          Grows-trans (more _ same tt) (
            more _
              ((reconcile_instance-From first second).at begun
                (set_condition-SameButStatus S K _ _ _ _ i)).grows
              tt))
