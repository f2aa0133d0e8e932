-- ===== src/Controller/Retain/Steps.antt =====
-- The steps of a reconcile under a deletion policy other than Delete.
use paperless_ngx_operator.Prelude.{
  ℕ, Bool, true, false, String, Option, none, some, List, [], ◌∷◌, Result, ok, err, ◌≡◌, ◌≢◌, inl,
  inr, refl, ◌∙◌, ap, arith, All, Bool-cases, Result-cases,
}
use paperless_ngx_operator.Kube.{Foreign}
use paperless_ngx_operator.Kube.Objects.{
  Secret, Object, ObjectMeta, PersistentVolumeClaim, pvc, ConditionStatus, metadata, with_metadata,
}
use paperless_ngx_operator.Api.Types.{PaperlessInstance}
use paperless_ngx_operator.Resources.Names.{secret_key_name, admin_secret_name}
use paperless_ngx_operator.Resources.Secrets.{secret_key, admin_secret}
use paperless_ngx_operator.Resources.Storage.{pvcs}
use paperless_ngx_operator.Controller.Client.{Server, Machinery, create_secret, is_not_found, ◌>>=◌}
use paperless_ngx_operator.Controller.Conditions.{mark}
use paperless_ngx_operator.Controller.Runs.{
  Grows, SameButStatus-refl, Runs-refl, Runs-bind_still, Keeps, Keeps-pure, Keeps-raise, Keeps-lift,
  Keeps-bind, Keeps-wrapping, Keeps-call, Keeps-modify, Keeps-attempt, keeps_rules,
}
use paperless_ngx_operator.Controller.Apply.{apply_owned}
use paperless_ngx_operator.Controller.Secrets.{
  Builder, wanted_references, patch_ownership, reconcile_secret_ownership, create_generated,
  after_get, ensure_generated_secret, reconcile_secrets,
}
use paperless_ngx_operator.Controller.Secrets.Trace.{generate-state, generate-built}
use paperless_ngx_operator.Controller.Steps.{apply_pvcs, reconcile_storage}
use paperless_ngx_operator.Controller.Steps.Trace.{set_condition-SameButStatus}
use paperless_ngx_operator.Controller.Runs.From.{
  From, From-Keeps, From-bind, From-current, From-wrapping,
}
use paperless_ngx_operator.Controller.Retain.{
  Survives, Retained, apply-Keeps-Retained, own_by_policy-retain, apply_stateful-From,
}

module _ {F : Foreign} (S : Server F) (K : Machinery F) (i : PaperlessInstance F) where
  pub mark-Keeps :
      (type : String) (status : ConditionStatus) (reason message : String)
      → Keeps (Retained S K i) (mark K type status reason message)
  mark-Keeps type status reason message =
      Keeps-modify _ (set_condition-SameButStatus S K type reason message status)

  wanted_references-Keeps :
      (want : Bool) (meta : ObjectMeta F) → Keeps (Retained S K i) (wanted_references S K want meta)
  wanted_references-Keeps true meta = search keeps_rules
  wanted_references-Keeps false meta = search keeps_rules

  patch_ownership-Keeps :
      (want : Bool) (secret : Secret F) → Keeps (Retained S K i) (patch_ownership S K want secret)
  unfolding patch_ownership
  patch_ownership-Keeps want secret =
      Keeps-bind _ _ (wanted_references-Keeps want secret.metadata) λ refs.
        Keeps-bind _ _ (Keeps-lift _)
          λ list. Keeps-bind _ _ (Keeps-lift _) λ body. Keeps-wrapping _ _ (Keeps-call _ _ λ h. tt)

  ownership-Keeps :
      (secret : Secret F) → Keeps (Retained S K i) (reconcile_secret_ownership S K secret)
  unfolding reconcile_secret_ownership
  ownership-Keeps secret = search (keeps_rules, patch_ownership-Keeps)

  pub owned-Keeps :
      (obj : Object F)
      → ((refs : List F.OwnerReference)
          → Survives S K i (with_metadata (record (metadata obj) { owner_references = refs }) obj))
      → Keeps (Retained S K i) (apply_owned S K obj)
  unfolding apply_owned ◌>>=◌
  owned-Keeps obj survives = record {
    at = λ s. elim (Result-cases (K.set_controller_reference s.inst (metadata obj))) [
      | inl (refs, set) ↦ rw set ((apply-Keeps-Retained S K i _ (survives refs)).at s)
      | inr (e, failed) ↦ rw failed (Runs-refl s)
    ];
  }

  module _ (retain : i.spec.deletion_policy ≢ "Delete") where
    create_generated-From :
        (name : String) (o : Option (Secret F))
        → ((s : Secret F) → o ≡ some s → s.metadata.owner_references ≡ [])
        → From i (Retained S K i) (create_generated S K name o)
    unfolding create_generated ◌>>=◌
    create_generated-From name none ownerless = From-Keeps _ (Keeps-pure tt)
    create_generated-From name (some secret) ownerless = record {
      at = λ s version. rw (own_by_policy-retain S K i retain secret.metadata s version) (record {
        static = SameButStatus-refl s.inst;
        grows = Grows.more (create_secret secret) Grows.same (ownerless secret refl);
      });
    }

    apply_pvcs-From :
        (ps : List (PersistentVolumeClaim F))
        → All (λ p. p.metadata.owner_references ≡ []) ps
        → From i (Retained S K i) (apply_pvcs S K ps)
    unfolding apply_pvcs
    apply_pvcs-From [] h = From-Keeps _ (Keeps-pure tt)
    apply_pvcs-From (p ∷ ps) (first, rest) =
        From-bind _ _ (From-wrapping _ _ (apply_stateful-From S K i retain (pvc p) first))
          λ _. apply_pvcs-From ps rest

    pub reconcile_storage-From : From i (Retained S K i) (reconcile_storage S K)
    unfolding reconcile_storage pvcs
    reconcile_storage-From =
        From-current _ λ j version. apply_pvcs-From (pvcs j) (refl, (refl, (refl, (refl, tt))))

    after_get-From :
        (name : String) (build : Builder F) (r : Result (Secret F))
        → ((read : ℕ → Result (List ℕ)) (j : PaperlessInstance F) (s : Secret F)
            → build read j ≡ ok (some s)
            → s.metadata.owner_references ≡ [])
        → From i (Retained S K i) (after_get S K name build r)
    unfolding after_get
    after_get-From name build (ok existing) ownerless = From-Keeps _ (ownership-Keeps existing)
    after_get-From name build (err e) ownerless = elim (Bool-cases (is_not_found e)) [
      | inl missing ↦ rw missing (record {
        at = λ s version. Runs-bind_still _ _ s (generate-state S K build s) λ o built.
            (create_generated-From name o (λ t is. ownerless _ _ t (
                generate-built S K build s o built ∙ ap {B = Result (Option (Secret F))} ok is))).at
              s version;
      })
      | inr other ↦ rw other (From-Keeps _ (Keeps-raise _))
    ]

    ensure-From :
        (name : String) (build : Builder F)
        → ((read : ℕ → Result (List ℕ)) (j : PaperlessInstance F) (s : Secret F)
            → build read j ≡ ok (some s)
            → s.metadata.owner_references ≡ [])
        → From i (Retained S K i) (ensure_generated_secret S K name build)
    unfolding ensure_generated_secret
    ensure-From name build ownerless = From-current _ λ j version.
        From-bind _ _ (From-Keeps _ (Keeps-attempt _ (Keeps-call _ _ λ h. tt)))
          λ r. after_get-From name build r ownerless

    secret_key-ownerless :
        (read : ℕ → Result (List ℕ)) (j : PaperlessInstance F) (s : Secret F)
        → secret_key read j ≡ ok (some s)
        → s.metadata.owner_references ≡ []
    unfolding secret_key
    secret_key-ownerless read j s h = ground arith

    admin_secret-ownerless :
        (read : ℕ → Result (List ℕ)) (j : PaperlessInstance F) (s : Secret F)
        → admin_secret read j ≡ ok (some s)
        → s.metadata.owner_references ≡ []
    unfolding admin_secret
    admin_secret-ownerless read j s h = ground arith

    pub reconcile_secrets-From : From i (Retained S K i) (reconcile_secrets S K)
    unfolding reconcile_secrets
    reconcile_secrets-From = From-current _ λ j version.
        From-bind _ _
          (From-wrapping _ _ (ensure-From (secret_key_name j) secret_key secret_key-ownerless))
          λ _.
            From-wrapping _ _
              (ensure-From (admin_secret_name j) admin_secret admin_secret-ownerless)
