-- ===== src/Controller/Retain.antt =====
-- Actions of the reconciler on an instance whose deletion policy is not Delete: the rules for the
-- requests that leave documents, database and Secrets without an owner.
pub mod Steps
pub mod Whole
use paperless_ngx_operator.Prelude.{
  Bool, true, false, String, ◌==◌, List, [], ◌∷◌, Result, ok, err, ◌≡◌, ◌≢◌, ◌⊎◌, inl, inr, refl,
  ◌∙◌, ap, arith, if◌then◌else◌, Bool-cases,
}
use paperless_ngx_operator.Kube.{Foreign}
use paperless_ngx_operator.Kube.Objects.{
  Object, ObjectMeta, deployment, service, pvc, unstructured, metadata, with_metadata,
}
use paperless_ngx_operator.Api.Types.{
  PaperlessInstance, PaperlessInstanceSpec, deletion_policy_delete,
}
use paperless_ngx_operator.Api.Defaults.{deletion_policy_or_default, deletion_policy-delete_iff}
use paperless_ngx_operator.Resources.Names.{valkey_name}
use paperless_ngx_operator.Controller.Client.{
  Server, Machinery, Request, History, State, M, create_secret, apply_patch, ◌>>=◌, current,
}
use paperless_ngx_operator.Controller.Runs.{
  SameButStatus, SameButStatus-trans, Runs, Runs-bind, Keeps, Keeps-bind-lift, Keeps-wrapping,
  Keeps-call,
}
use paperless_ngx_operator.Controller.Runs.From.{From}
use paperless_ngx_operator.Controller.Apply.{own_by_policy, apply, apply_stateful}

module _ {F : Foreign} (S : Server F) (K : Machinery F) (i : PaperlessInstance F) where
  -- An object that outlives the instance has no owner; the claim of the cache may have one.
  abbrev pub Survives : Object F → Type 0
  Survives (unstructured u) = u.metadata.owner_references ≡ []
  Survives (pvc p) = (p.metadata.name ≡ valkey_name i) ⊎ (p.metadata.owner_references ≡ [])
  Survives _ = Unit

  Survives-ownerless :
      (obj : Object F)
      → (metadata obj).owner_references ≡ []
      → Survives (with_metadata (metadata obj) obj)
  Survives-ownerless (deployment d) h = tt
  Survives-ownerless (service s) h = tt
  Survives-ownerless (pvc p) h = inr h
  Survives-ownerless (unstructured u) h = h

  -- What may be sent under a policy other than Delete.
  abbrev pub Retained : Request F → History F → Type 0
  Retained (create_secret s) h = s.metadata.owner_references ≡ []
  Retained (apply_patch obj body) h = Survives obj
  Retained _ h = Unit

  pub apply-Keeps-Retained : (obj : Object F) → Survives obj → Keeps Retained (apply S K obj)
  unfolding apply
  apply-Keeps-Retained obj survives = Keeps-bind-lift _ _ λ gvk _.
      Keeps-bind-lift _ _
        λ encoded _. Keeps-bind-lift _ _ λ body _. Keeps-wrapping _ _ (Keeps-call _ _ λ h. survives)

  module _ (retain : i.spec.deletion_policy ≢ "Delete") where
    pub own_by_policy-retain :
        (meta : ObjectMeta F) (s : State F)
        → SameButStatus i s.inst
        → own_by_policy S K meta s ≡ (ok meta, s)
    unfolding ◌>>=◌
    own_by_policy-retain meta s version =
        elim (Bool-cases (deletion_policy_or_default s.inst.spec == deletion_policy_delete)) [
          | inl is_delete ↦ absurd (
              retain (
                ap (λ (x : PaperlessInstanceSpec F). x.deletion_policy) version.spec
                ∙ (deletion_policy-delete_iff s.inst.spec).0 is_delete))
          | inr other ↦ rw other refl
        ]

    pub apply_stateful-From :
        (obj : Object F)
        → (metadata obj).owner_references ≡ []
        → From i Retained (apply_stateful S K obj)
    unfolding apply_stateful ◌>>=◌
    apply_stateful-From obj none_yet = record {
      at = λ s version.
          rw (own_by_policy-retain (metadata obj) s version)
            ((apply-Keeps-Retained _ (Survives-ownerless obj none_yet)).at s);
    }
