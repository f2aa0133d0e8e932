-- ===== src/Controller/Desired/Isolated.antt =====
-- What a reconcile of one instance leaves to the others
-- (internal/controller/paperlessinstance_controller.go).
use paperless_ngx_operator.Prelude.{ℤ, err, All, List, [], ◌∷◌, Result, ok, ◌≡◌, ◌≢◌, refl, ◌∙◌, ap}
use paperless_ngx_operator.Kube.{Foreign}
use paperless_ngx_operator.Kube.Objects.{Object, ObjectKey}
use paperless_ngx_operator.Api.Types.{PaperlessInstance}
use paperless_ngx_operator.Controller.Client.{
  Server, Machinery, Request, History, get_instance, get_secret, get_crd, create_secret,
  apply_patch, merge_patch_secret, patch_status,
}
use paperless_ngx_operator.Controller.Runs.{Grows, Grows-map, same, more}
use paperless_ngx_operator.Controller.Reconcile.{reconcile}
use paperless_ngx_operator.Controller.Desired.{
  Slot, slot_of, Cluster, put_if_ok, want_slots, cluster_of, desired,
}
use paperless_ngx_operator.Controller.Desired.Ensure.{put-other}
use paperless_ngx_operator.Controller.Desired.Apart.{Apart, desired_places-All, secret_slots-ne}
use paperless_ngx_operator.Controller.Desired.Secrets.{
  AnswersKey, WritesIn, key_secret_key, admin_secret_key, reconcile-WritesIn,
}
use paperless_ngx_operator.Controller.Desired.Targets.{AppliesIn, Inside-desired}
use paperless_ngx_operator.Controller.Desired.Targets.Whole.{reconcile-AppliesIn}

module _ {P Q : Slot → Type 0} {F : Foreign} where
  AppliesIn-map :
      ((slot : Slot) → P slot → Q slot)
      → (q : Request F) (h : History F) → AppliesIn P q h
      → AppliesIn Q q h
  AppliesIn-map f (apply_patch obj body) h p = f (slot_of obj) p
  AppliesIn-map f (get_instance key) h p = tt
  AppliesIn-map f (get_secret key) h p = tt
  AppliesIn-map f (get_crd name) h p = tt
  AppliesIn-map f (create_secret s) h p = tt
  AppliesIn-map f (merge_patch_secret key body) h p = tt
  AppliesIn-map f (patch_status sent base) h p = tt

module _ {F : Foreign} (S : Server F) where
  put_if_ok-other :
      (r : Result ℤ) (obj : Object F) (c : Cluster F) (slot : Slot)
      → slot_of obj ≢ slot
      → put_if_ok r obj c slot ≡ c slot
  put_if_ok-other (ok n) obj c slot differ = put-other obj c slot differ
  put_if_ok-other (err e) obj c slot differ = refl

  cluster_of-other :
      (slot : Slot) (q : Request F) (h : History F)
      → AppliesIn (λ a. a ≢ slot) q h
      → cluster_of S (q ∷ h) slot ≡ cluster_of S h slot
  unfolding cluster_of
  cluster_of-other slot (apply_patch obj body) h p =
      put_if_ok-other (S.apply_answer h obj body) obj (cluster_of S h) slot p
  cluster_of-other slot (get_instance key) h p = refl
  cluster_of-other slot (get_secret key) h p = refl
  cluster_of-other slot (get_crd name) h p = refl
  cluster_of-other slot (create_secret s) h p = refl
  cluster_of-other slot (merge_patch_secret key body) h p = refl
  cluster_of-other slot (patch_status sent base) h p = refl

  cluster_of-elsewhere :
      (slot : Slot) {h k : History F}
      → Grows (AppliesIn (λ a. a ≢ slot)) h k
      → cluster_of S k slot ≡ cluster_of S h slot
  cluster_of-elsewhere slot same = refl
  cluster_of-elsewhere slot (more q g p) = cluster_of-other slot q _ p ∙ cluster_of-elsewhere slot g

  cluster_of-All :
      {h k : History F} (slots : List Slot)
      → Grows (AppliesIn (λ a. All (λ b. a ≢ b) slots)) h k
      → All (λ slot. cluster_of S k slot ≡ cluster_of S h slot) slots
  cluster_of-All [] g = tt
  cluster_of-All (slot ∷ slots) g = (
    cluster_of-elsewhere slot
        (Grows-map (AppliesIn-map {P = λ a. All (λ b. a ≢ b) (slot ∷ slots)} λ a p. p.0) g),
    cluster_of-All slots
        (Grows-map (AppliesIn-map {P = λ a. All (λ b. a ≢ b) (slot ∷ slots)} λ a p. p.1) g),
  )

  -- A key as the place of a Secret.
  abbrev secret_at : ObjectKey → Slot
  secret_at k = record { kind = "Secret"; name = k.name; namespace = k.namespace }

  -- The key is that of neither Secret of the instance.
  abbrev pub NoSecretOf : PaperlessInstance F → ObjectKey → Type 0
  NoSecretOf j k = (k ≢ key_secret_key j) × (k ≢ admin_secret_key j)

  -- If a Get of a Secret answers with one of the name and the namespace that were asked for, then
  -- whatever else the API server answers and however it ends, a reconcile of one instance leaves
  -- another one alone, where the two are in different namespaces, or have different names and
  -- neither is named as the cache of the other. What was applied last in the place of each claim,
  -- Cluster, Service and Deployment that the other asks for is as before, and no Secret is created
  -- or patched at the key of one of the other's two Secrets.
  pub reconcile_isolated :
      (K : Machinery F) (i j : PaperlessInstance F) (key : ObjectKey) (h : History F)
      → AnswersKey S
      → S.instance_answer h key ≡ ok i
      → Apart i j
      → All
          (λ slot. cluster_of S (reconcile S K key h).1 slot ≡ cluster_of S h slot)
          (want_slots (desired j))
        × Grows (WritesIn (NoSecretOf j)) h (reconcile S K key h).1
  reconcile_isolated K i j key h answers found apart = (
    cluster_of-All (want_slots (desired j)) (
        reconcile-AppliesIn S K _ i (Inside-desired _ i (desired_places-All i j apart)) key h
          found),
    reconcile-WritesIn S K (NoSecretOf j) i answers key h found
        (
          λ e. secret_slots-ne i j apart "secret-key" "secret-key" refl (ap secret_at e),
          λ e. secret_slots-ne i j apart "secret-key" "admin" refl (ap secret_at e),
        )
        (
          λ e. secret_slots-ne i j apart "admin" "secret-key" refl (ap secret_at e),
          λ e. secret_slots-ne i j apart "admin" "admin" refl (ap secret_at e),
        ),
  )
