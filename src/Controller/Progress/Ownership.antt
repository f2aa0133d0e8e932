-- ===== src/Controller/Progress/Ownership.antt =====
-- The ownership of an existing Secret is set where its surroundings do not fail
-- (internal/controller/deletion_policy.go).
use paperless_ngx_operator.Prelude.{
  ◌==◌, bool_eq, ℕ, Bool, true, false, ◌∷◌, ◌∙◌, ◌≤◌, ap, arith, length, ok, ◌≡◌, refl,
  if◌then◌else◌,
}
use paperless_ngx_operator.Kube.{Foreign}
use paperless_ngx_operator.Kube.Objects.{ObjectKey, ObjectMeta, Secret}
use paperless_ngx_operator.Api.Types.{PaperlessInstance, deletion_policy_delete}
use paperless_ngx_operator.Api.Defaults.{deletion_policy_or_default}
use paperless_ngx_operator.Controller.Client.{
  Server, Machinery, History, State, get_secret, merge_patch_secret, pure, ◌>>=◌,
}
use paperless_ngx_operator.Controller.References.{ownership_patch, is_controlled_by}
use paperless_ngx_operator.Controller.Secrets.{
  key_of, wanted_references, patch_ownership, reconcile_secret_ownership,
}
use paperless_ngx_operator.Controller.Progress.{
  Late, Late-asked, Works, Serves, Succeeds, Succeeds-pure, Succeeds-bind,
}
use paperless_ngx_operator.Controller.Progress.Apply.{own-Succeeds, owner_references_json-eq-ok}

module _ {F : Foreign} {S : Server F} {K : Machinery F} {n : ℕ} (i : PaperlessInstance F)
    (works : Works K) (serves : Serves S n) where
  wanted_references-Succeeds :
      (want : Bool) (meta : ObjectMeta F)
      → meta.namespace ≡ i.namespace
      → Succeeds i n (λ _. Unit) (wanted_references S K want meta)
  wanted_references-Succeeds true meta namespace =
      Succeeds-bind _ _ (own-Succeeds i works serves _ (namespace, refl)) λ m _. Succeeds-pure _ tt
  wanted_references-Succeeds false meta namespace = Succeeds-pure _ tt

  wanted_references-state :
      (want : Bool) (meta : ObjectMeta F) (t : State F) → (wanted_references S K want meta t).1 ≡ t
  unfolding ◌>>=◌
  wanted_references-state true meta t = ground arith
  wanted_references-state false meta t = refl

  -- The rest of the step, right after a Get that has found the Secret.
  module _ (s : Secret F) (key : ObjectKey) (h : History F) (keyed : key_of s.metadata ≡ key)
      (here : key.namespace ≡ i.namespace) (late : n ≤ length h)
      (answered : S.secret_answer h key ≡ ok s) where
    patch_ownership-at :
        (want : Bool) (t : State F)
        → Late i n t
        → t.history ≡ get_secret key ∷ h
        → ((patch_ownership S K want s t).0 ≡ ok tt) × Late i n (patch_ownership S K want s t).1
    unfolding patch_ownership ◌>>=◌
    patch_ownership-at want t l asked =
        let namespace : s.metadata.namespace ≡ i.namespace =
          ap (λ (k : ObjectKey). k.namespace) keyed ∙ here in
        let (refs, is, u, end) = (wanted_references-Succeeds want s.metadata namespace).at t l in
        let still = wanted_references-state want s.metadata t in
        let (list, listed) = owner_references_json-eq-ok works refs in
        let (body, encoded) = works.encodes_map (ownership_patch list) in
        let done : S.merge_answer t.history (key_of s.metadata) body ≡ ok tt =
          ap (λ k. S.merge_answer t.history k body) keyed
          ∙ ap (λ past. S.merge_answer past key body) asked
          ∙ serves.merged h key s body late answered in
        (
          rw (is, still, listed, encoded, done) refl,
          rw (is, still, listed, encoded)
              (Late-asked (merge_patch_secret (key_of s.metadata) body) t l),
        )

    ownership_if_at :
        (same_ want : Bool) (t : State F)
        → Late i n t
        → t.history ≡ get_secret key ∷ h
        → (((if same_ then pure tt else patch_ownership S K want s) t).0 ≡ ok tt)
          × Late i n ((if same_ then pure tt else patch_ownership S K want s) t).1
    unfolding ◌>>=◌
    ownership_if_at true want t l asked = (refl, l)
    ownership_if_at false want t l asked = patch_ownership-at want t l asked

    pub reconcile_secret_ownership-at :
        (t : State F)
        → Late i n t
        → t.history ≡ get_secret key ∷ h
        → ((reconcile_secret_ownership S K s t).0 ≡ ok tt)
          × Late i n (reconcile_secret_ownership S K s t).1
    unfolding reconcile_secret_ownership ◌>>=◌
    reconcile_secret_ownership-at t l asked =
        let want : Bool = deletion_policy_or_default t.inst.spec == deletion_policy_delete in
        ownership_if_at (bool_eq want (is_controlled_by s.metadata t.inst)) want t l asked
