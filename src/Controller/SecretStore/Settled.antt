-- ===== src/Controller/SecretStore/Settled.antt =====
-- The secrets step settles both Secrets, and has nothing left to do after that
-- (internal/controller/paperlessinstance_controller.go).
use paperless_ngx_operator.Prelude.{
  Bool, true, false, String, ◌==◌, ◌∷◌, ok, ◌≡◌, ◌≢◌, ◌↔◌, refl, ◌∙◌, ap, arith, bool_eq,
}
use paperless_ngx_operator.Kube.{Foreign}
use paperless_ngx_operator.Kube.Objects.{ObjectKey, Secret}
use paperless_ngx_operator.Api.Types.{PaperlessInstance, deletion_policy_delete}
use paperless_ngx_operator.Api.Defaults.{deletion_policy_or_default, deletion_policy-delete_iff}
use paperless_ngx_operator.Resources.Names.{secret_key_name, admin_secret_name}
use paperless_ngx_operator.Resources.Names.Distinct.{derived_name-suffix}
use paperless_ngx_operator.Resources.Secrets.{secret_key, admin_secret}
use paperless_ngx_operator.Controller.Client.{
  Server, Machinery, History, State, M, get_secret, ◌>>=◌, ◌>>◌, wrapping,
}
use paperless_ngx_operator.Controller.Inversion.{bind-eq-ok, wrapping-eq-ok}
use paperless_ngx_operator.Controller.References.{is_controlled_by}
use paperless_ngx_operator.Controller.Secrets.{
  Builder, reconcile_secret_ownership, create_generated, after_get, ensure_generated_secret,
  reconcile_secrets,
}
use paperless_ngx_operator.Controller.SecretStore.{View, IsStore}
use paperless_ngx_operator.Controller.SecretStore.Policy.{
  Controls, Builds, Settled, stored, unneeded, Ensured,
}
use paperless_ngx_operator.Controller.SecretStore.Ensured.{ensure_generated_secret-Ensured}

module _ {F : Foreign} where
  secret_key-Builds :
      (i : PaperlessInstance F)
      → Builds secret_key i (record { name = secret_key_name i; namespace = i.namespace })
  unfolding secret_key
  secret_key-Builds i = record {
    keyed = λ read s h. ground arith;
    ownerless = λ read s h. ground arith;
    decided = λ read other h. ground arith;
  }

  admin_secret-Builds :
      (i : PaperlessInstance F)
      → Builds admin_secret i (record { name = admin_secret_name i; namespace = i.namespace })
  unfolding admin_secret
  admin_secret-Builds i = record {
    keyed = λ read s h. ground arith;
    ownerless = λ read s h. ground arith;
    decided = λ read other h. ground arith;
  }

both-eq-ok :
    {F : Foreign} (p q : String) (a b : M F Unit) (s : State F)
    → ((wrapping p a >> wrapping q b) s).0 ≡ ok tt
    → ((a s).0 ≡ ok tt)
      × ((b (a s).1).0 ≡ ok tt)
      × (((wrapping p a >> wrapping q b) s).1 ≡ (b (a s).1).1)
both-eq-ok p q a b s h =
    let (x, e, h1, t1) = bind-eq-ok (wrapping p a) (λ _. wrapping q b) s tt h in
    let (first, after) = wrapping-eq-ok p a s tt e in
    let (second, end) = wrapping-eq-ok q b _ tt h1 in
    (first, rw after at second, t1 ∙ end ∙ ap (λ u. (b u).1) after)

bool_eq_of_iff : {P : Type 0} (a b : Bool) → (a ≡ true) ↔ P → (b ≡ true) ↔ P → bool_eq a b ≡ true
bool_eq_of_iff true b p q = q.1 (p.0 refl)
bool_eq_of_iff false true p q = p.1 (q.0 refl)
bool_eq_of_iff false false p q = refl

-- The keys of the two generated Secrets of an instance.
abbrev pub secret_key_at : {F : Foreign} → PaperlessInstance F → ObjectKey
secret_key_at i = record { name = secret_key_name i; namespace = i.namespace }

abbrev pub admin_secret_at : {F : Foreign} → PaperlessInstance F → ObjectKey
admin_secret_at i = record { name = admin_secret_name i; namespace = i.namespace }

module _ {F : Foreign} (S : Server F) (K : Machinery F) (view : View F)
    (store : IsStore S K view) where
  -- Nothing is sent about a Secret that is owned as the policy says.
  ownership_settled :
      (t : Secret F) (s : State F)
      → (is_controlled_by t.metadata s.inst ≡ true) ↔ (s.inst.spec.deletion_policy ≡ "Delete")
      → reconcile_secret_ownership S K t s ≡ (ok tt, s)
  unfolding reconcile_secret_ownership ◌>>=◌
  ownership_settled t s iff =
      let policy = deletion_policy-delete_iff s.inst.spec in
      let agree : bool_eq (deletion_policy_or_default s.inst.spec == deletion_policy_delete)
            (is_controlled_by t.metadata s.inst)
          ≡ true =
        bool_eq_of_iff _ _ policy iff in
      rw agree refl

  -- For a settled Secret the step is one Get.
  ensure_settled :
      (name : String) (build : Builder F) (s : State F)
      → Settled S K view
          (record { name = name; namespace = s.inst.namespace })
          build
          s.inst
          s.history
      → ensure_generated_secret S K name build s ≡ (
        ok tt,
        record s {
          history = get_secret (record { name = name; namespace = s.inst.namespace }) ∷ s.history;
        },
      )
  unfolding ensure_generated_secret after_get ◌>>=◌ create_generated
  ensure_settled name build s (stored {t} at iff) =
      let (answer, keyed) = store.found s.history _ t at in rw answer (ownership_settled t _ iff)
  ensure_settled name build s (unneeded lacks none_built) =
      let (e, answer, missing) = store.missing s.history _ lacks in
      rw (answer, missing)
        (rw
          (none_built (
            S.rand_read
              (get_secret (record { name = name; namespace = s.inst.namespace }) ∷ s.history)))
          refl)

  pub settled_again :
      (s : State F)
      → Settled S K view (secret_key_at s.inst) secret_key s.inst s.history
      → Settled S K view (admin_secret_at s.inst) admin_secret s.inst s.history
      → reconcile_secrets S K s ≡ (
        ok tt,
        record s {
          history =
              get_secret (admin_secret_at s.inst) ∷ get_secret (secret_key_at s.inst) ∷ s.history;
        },
      )
  unfolding reconcile_secrets ◌>>=◌
  settled_again s first second = rw (ensure_settled (secret_key_name s.inst) secret_key s first) (
      rw
        (ensure_settled (admin_secret_name s.inst) admin_secret
          (record s { history = get_secret (secret_key_at s.inst) ∷ s.history })
          (Settled-frame second))
        refl)
    where
      Settled-frame :
          Settled S K view (admin_secret_at s.inst) admin_secret s.inst s.history
          → Settled S K view
              (admin_secret_at s.inst)
              admin_secret
              s.inst
              (get_secret (secret_key_at s.inst) ∷ s.history)
      Settled-frame (stored at iff) = stored (store.frame s.history _ _ (λ e. e) ∙ at) iff
      Settled-frame (unneeded lacks none_built) =
          unneeded (store.frame s.history _ _ (λ e. e) ∙ lacks) none_built

  -- What a secrets step that succeeds leaves: both Secrets settled, and nothing to do for the
  -- next such step but to look.
  pub record SecretsSettled (s t : State F) : Type 0 where
    pub history : History F
    pub state : t ≡ record s { history = history }
    pub key : Settled S K view (secret_key_at s.inst) secret_key s.inst history
    pub admin : Settled S K view (admin_secret_at s.inst) admin_secret s.inst history
    pub again : reconcile_secrets S K t ≡ (
      ok tt,
      record t {
        history =
            get_secret (admin_secret_at t.inst) ∷ get_secret (secret_key_at t.inst) ∷ t.history;
      },
    )

  keys_differ : (i : PaperlessInstance F) → secret_key_at i ≢ admin_secret_at i
  keys_differ i e =
      derived_name-suffix i "secret-key" "admin" refl (ap (λ (k : ObjectKey). k.name) e)

  Settled-others :
      (key : ObjectKey) (build : Builder F) (i : PaperlessInstance F) (h k : History F)
      → view k key ≡ view h key
      → Settled S K view key build i h
      → Settled S K view key build i k
  Settled-others key build i h k same (stored at iff) = stored (same ∙ at) iff
  Settled-others key build i h k same (unneeded lacks none_built) =
      unneeded (same ∙ lacks) none_built

  both_settled :
      (s t : State F) (h : History F)
      → Settled S K view (secret_key_at s.inst) secret_key s.inst h
      → Ensured S K view (admin_secret_at s.inst) admin_secret (record s { history = h }) t
      → SecretsSettled s t
  both_settled s t h first second =
      let k : History F = second.history in
      let key : Settled S K view (secret_key_at s.inst) secret_key s.inst k =
        Settled-others (secret_key_at s.inst) secret_key s.inst h k
          (second.others (secret_key_at s.inst) (keys_differ s.inst)) first in
      record {
        history = k;
        state = second.state;
        key = key;
        admin = second.settles;
        again = rw second.state (settled_again (record s { history = k }) key second.settles);
      }

  second_settled :
      (controls : Controls K) (s u : State F)
      → Ensured S K view (secret_key_at s.inst) secret_key s u
      → (ensure_generated_secret S K (admin_secret_name s.inst) admin_secret u).0 ≡ ok tt
      → SecretsSettled s (ensure_generated_secret S K (admin_secret_name s.inst) admin_secret u).1
  second_settled controls s u first h =
      let v : State F = record s { history = first.history } in
      rw first.state (
        both_settled s _ first.history first.settles (
          ensure_generated_secret-Ensured S K view store controls (admin_secret_name s.inst)
            admin_secret v (admin_secret-Builds s.inst) (rw first.state at h)))

  -- After a successful secrets step on a lawful store each of the two Secrets is stored, and
  -- controlled by the instance exactly under the policy Delete, or is absent and not wanted; the
  -- state has changed in the history only; and the next secrets step succeeds and sends just
  -- the two Gets.
  pub reconcile_secrets-SecretsSettled :
      (controls : Controls K) (s : State F)
      → (reconcile_secrets S K s).0 ≡ ok tt
      → SecretsSettled s (reconcile_secrets S K s).1
  unfolding reconcile_secrets ◌>>=◌
  reconcile_secrets-SecretsSettled controls s h =
      let first_step = ensure_generated_secret S K (secret_key_name s.inst) secret_key in
      let second_step = ensure_generated_secret S K (admin_secret_name s.inst) admin_secret in
      let (first, second, end) =
        both-eq-ok "ensuring secret key" "ensuring admin secret" first_step second_step s h in
      rw end (
        second_settled controls s (first_step s).1
          (ensure_generated_secret-Ensured S K view store controls (secret_key_name s.inst)
            secret_key s (secret_key-Builds s.inst) first)
          second)
