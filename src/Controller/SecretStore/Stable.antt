-- ===== src/Controller/SecretStore/Stable.antt =====
-- No reconcile changes the data of a stored Secret.
use paperless_ngx_operator.Prelude.{
  ◌==◌, some, List, [], ◌∷◌, true, ◌≡◌, ◌≢◌, refl, ◌∙◌, ◌⊎◌, inl, inr, arith, eq_iff, Bool-cases,
}
use paperless_ngx_operator.Kube.{Foreign}
use paperless_ngx_operator.Kube.Objects.{ObjectKey, Secret}
use paperless_ngx_operator.Controller.Client.{
  Server, Machinery, Request, History, get_instance, get_secret, get_crd, create_secret,
  apply_patch, merge_patch_secret, patch_status,
}
use paperless_ngx_operator.Kube.Json.{lookup}
use paperless_ngx_operator.Controller.References.{ownership_patch}
use paperless_ngx_operator.Controller.Runs.{Grows, same, more}
use paperless_ngx_operator.Controller.Permitted.{Permitted}
use paperless_ngx_operator.Controller.Reconcile.{reconcile}
use paperless_ngx_operator.Controller.Reconcile.Trace.{reconcile-Grows}
use paperless_ngx_operator.Controller.SecretStore.{View, SameData, IsStore}

pub ObjectKey-cases : (k j : ObjectKey) → (k ≡ j) ⊎ (k ≢ j)
ObjectKey-cases k j = elim (Bool-cases (k.name == j.name)) [
  | inl names ↦ elim (Bool-cases (k.namespace == j.namespace)) [
    | inl spaces ↦ inl (ground (arith, eq_iff k.name j.name, eq_iff k.namespace j.namespace))
    | inr other ↦ inr (λ e. ground (arith, eq_iff k.namespace j.namespace))
  ]
  | inr other ↦ inr (λ e. ground (arith, eq_iff k.name j.name))
]

module _ {F : Foreign} (S : Server F) (K : Machinery F) (view : View F)
    (store : IsStore S K view) where
  -- The Secret that is stored at the key has the data of `s`.
  abbrev pub Holds : Secret F → ObjectKey → History F → Type 0
  Holds s key h = (t : Secret F) × (view h key ≡ some t) × SameData s t

  one_more :
      (q : Request F) (s : Secret F) (key : ObjectKey) (h : History F)
      → Permitted S K true q h
      → Holds s key h
      → Holds s key (q ∷ h)
  unfolding lookup
  one_more (create_secret c) s key h p (t, at, kept) = (t, store.kept h c t key at, kept)
  one_more (merge_patch_secret k body) s key h (list, encoded) (t, at, kept) =
      elim (ObjectKey-cases k key) [
        | inl is ↦
            let (u, stored, unchanged) =
              store.untouched h t key (ownership_patch list) body at refl refl encoded in
            (u, rw is stored, unchanged ∙ kept)
        | inr other ↦ (t, store.frame h (merge_patch_secret k body) key other ∙ at, kept)
      ]
  one_more (get_instance k) s key h p (t, at, kept) =
      (t, store.frame h (get_instance k) key (λ e. e) ∙ at, kept)
  one_more (get_secret k) s key h p (t, at, kept) =
      (t, store.frame h (get_secret k) key (λ e. e) ∙ at, kept)
  one_more (get_crd n) s key h p (t, at, kept) =
      (t, store.frame h (get_crd n) key (λ e. e) ∙ at, kept)
  one_more (apply_patch obj body) s key h p (t, at, kept) =
      (t, store.frame h (apply_patch obj body) key (λ e. e) ∙ at, kept)
  one_more (patch_status a b) s key h p (t, at, kept) =
      (t, store.frame h (patch_status a b) key (λ e. e) ∙ at, kept)

  Grows-Holds :
      (s : Secret F) (key : ObjectKey) (h : History F) {k : History F}
      → Grows (Permitted S K true) h k
      → Holds s key h
      → Holds s key k
  Grows-Holds s key h same holds = holds
  Grows-Holds s key h (more q g p) holds = one_more q s key _ p (Grows-Holds s key h g holds)

  -- The history after a reconcile of each of some instances in turn.
  unfoldable pub reconcile_all : List ObjectKey → History F → History F
  reconcile_all [] h = h
  reconcile_all (k ∷ keys) h = reconcile_all keys (reconcile S K k h).1

  reconcile_all_keep :
      (keys : List ObjectKey) (s : Secret F) (key : ObjectKey) (h : History F)
      → Holds s key h
      → Holds s key (reconcile_all keys h)
  unfolding reconcile_all
  reconcile_all_keep [] s key h holds = holds
  reconcile_all_keep (k ∷ keys) s key h holds =
      reconcile_all_keep keys s key (reconcile S K k h).1
        (Grows-Holds s key h (reconcile-Grows S K k h) holds)

  -- On a server that stores Secrets, and on which nobody else writes them, the data of a Secret
  -- that is stored is the same after any number of reconciles of any instances, however they end.
  pub reconcile_all-Holds :
      (keys : List ObjectKey) (s : Secret F) (key : ObjectKey) (h : History F)
      → view h key ≡ some s
      → Holds s key (reconcile_all keys h)
  reconcile_all-Holds keys s key h at = reconcile_all_keep keys s key h (s, at, refl)
