-- ===== src/Controller/Desired/Targets.antt =====
-- The places of what a reconcile applies, however it ends
-- (internal/controller/paperlessinstance_controller.go, internal/controller/deletion_policy.go).
pub mod Whole
use mathlib.Core.List.{map-append}
use paperless_ngx_operator.Prelude.{
  ℤ, Bool, true, false, String, Option, none, some, All, List, [], ◌∷◌, ◌++◌, Result, ok, err, ◌≡◌,
  sym, ap, ◌∙◌, inl, inr, Bool-cases, Result-cases, wrap_error-eq-ok, ◌==◌,
}
use paperless_ngx_operator.Kube.{Foreign}
use paperless_ngx_operator.Kube.Objects.{
  ObjectKey, Object, PersistentVolumeClaim, Unstructured, deployment, service, pvc, unstructured,
  metadata, with_metadata,
}
use paperless_ngx_operator.Api.Types.{PaperlessInstance, ExternalDatabase, deletion_policy_delete}
use paperless_ngx_operator.Api.Defaults.{deletion_policy_or_default}
use paperless_ngx_operator.Resources.Storage.{pvcs}
use paperless_ngx_operator.Resources.Cache.{valkey_deployment, valkey_service, valkey_pvc}
use paperless_ngx_operator.Resources.Database.{cnpg_cluster}
use paperless_ngx_operator.Controller.Client.{
  Server, Machinery, Request, History, M, State, get_instance, get_secret, get_crd, create_secret,
  apply_patch, merge_patch_secret, patch_status, ◌>>=◌,
}
use paperless_ngx_operator.Controller.Runs.{
  SameButStatus, Keeps, Keeps-pure, Keeps-bind-lift, Keeps-wrapping, Keeps-call, Keeps-bind,
  Runs-refl, Grows, same, more, Grows-trans, Grows-map, keeps_rules,
}
use paperless_ngx_operator.Controller.Runs.From.{
  From, From-Keeps, From-bind, From-current, From-wrapping, From-attempt, From-bind-lift,
}
use paperless_ngx_operator.Controller.Apply.{apply, apply_owned, apply_stateful}
use paperless_ngx_operator.Controller.Steps.{
  apply_pvcs, reconcile_storage, apply_if_some, object_of, reconcile_cache, report_workload,
  reconcile_workload,
}
use paperless_ngx_operator.Controller.Steps.Trace.{mark-Keeps, set_condition-SameButStatus}
use paperless_ngx_operator.Controller.Database.{
  apply_cluster, reconcile_managed_database, database_step, reconcile_database,
}
use paperless_ngx_operator.Controller.Reconcile.{
  fail_step, settle, step, after_database, reconcile_instance, patch_status_of, reconcile_found,
  reconcile, seeded,
}
use paperless_ngx_operator.Controller.Desired.{
  Want, Slot, slot_of, slot_of-with_metadata, want_slots, claims, wanted, wanted_cluster,
  storage_wants, database_wants, cache_wants, workload_wants, desired,
}
use paperless_ngx_operator.Controller.Desired.Places.{NoApply}
use paperless_ngx_operator.Controller.Desired.Quiet.{
  reconcile_secrets-NoApply, reconcile_external_database-NoApply, cnpg_installed-NoApply,
}
use paperless_ngx_operator.Controller.Desired.Status.{
  storage_wants-status, database_wants-status, cache_wants-status, workload_wants-status,
}

-- A request that applies an object in a place of `P` only.
abbrev pub AppliesIn : {F : Foreign} → (Slot → Type 0) → Request F → History F → Type 0
AppliesIn P (apply_patch obj body) h = P (slot_of obj)
AppliesIn P (get_instance key) h = Unit
AppliesIn P (get_secret key) h = Unit
AppliesIn P (get_crd name) h = Unit
AppliesIn P (create_secret s) h = Unit
AppliesIn P (merge_patch_secret key body) h = Unit
AppliesIn P (patch_status sent base) h = Unit

module _ {F : Foreign} (S : Server F) (K : Machinery F) (P : Slot → Type 0) where
  pub NoApply-AppliesIn : (q : Request F) (h : History F) → NoApply q h → AppliesIn P q h
  NoApply-AppliesIn (apply_patch obj body) h p = absurd p
  NoApply-AppliesIn (get_instance key) h p = tt
  NoApply-AppliesIn (get_secret key) h p = tt
  NoApply-AppliesIn (get_crd name) h p = tt
  NoApply-AppliesIn (create_secret s) h p = tt
  NoApply-AppliesIn (merge_patch_secret key body) h p = tt
  NoApply-AppliesIn (patch_status sent base) h p = tt

  pub quiet-Keeps : {A : Type 0} (m : M F A) → Keeps NoApply m → Keeps (AppliesIn P) m
  quiet-Keeps m k = record {
    at = λ s. record {
      static = (k.at s).static;
      grows = Grows-map NoApply-AppliesIn (k.at s).grows;
    };
  }

  apply-Keeps : (obj : Object F) → P (slot_of obj) → Keeps (AppliesIn P) (apply S K obj)
  unfolding apply
  apply-Keeps obj inside = Keeps-bind-lift _ _ λ gvk _.
      Keeps-bind-lift _ _
        λ encoded _. Keeps-bind-lift _ _ λ body _. Keeps-wrapping _ _ (Keeps-call _ _ λ h. inside)

  apply-Keeps-references :
      (obj : Object F) (refs : List F.OwnerReference)
      → P (slot_of obj)
      → Keeps
          (AppliesIn P)
          (apply S K (with_metadata (record (metadata obj) { owner_references = refs }) obj))
  apply-Keeps-references obj refs inside =
      apply-Keeps _ (rw (slot_of-with_metadata obj refs) inside)

  pub apply_owned-Keeps :
      (obj : Object F) → P (slot_of obj) → Keeps (AppliesIn P) (apply_owned S K obj)
  unfolding apply_owned ◌>>=◌
  apply_owned-Keeps obj inside = record {
    at = λ s. elim (Result-cases (K.set_controller_reference s.inst (metadata obj))) [
      | inl (refs, set) ↦ rw set ((apply-Keeps-references obj refs inside).at s)
      | inr (e, failed) ↦ rw failed (Runs-refl s)
    ];
  }

  pub apply_stateful-Keeps :
      (obj : Object F) → P (slot_of obj) → Keeps (AppliesIn P) (apply_stateful S K obj)
  unfolding apply_stateful apply_owned ◌>>=◌
  apply_stateful-Keeps obj inside = record {
    at = λ s. elim (Bool-cases (deletion_policy_or_default s.inst.spec == deletion_policy_delete)) [
      | inl is_delete ↦ rw is_delete ((apply_owned-Keeps obj inside).at s)
      | inr other ↦
          rw other ((apply-Keeps-references obj (metadata obj).owner_references inside).at s)
    ];
  }

  pub apply_pvcs-Keeps :
      (ps : List (PersistentVolumeClaim F))
      → All P (want_slots (claims ps))
      → Keeps (AppliesIn P) (apply_pvcs S K ps)
  unfolding apply_pvcs
  apply_pvcs-Keeps [] inside = Keeps-pure tt
  apply_pvcs-Keeps (p ∷ ps) inside =
      Keeps-bind _ _ (Keeps-wrapping _ _ (apply_stateful-Keeps (pvc p) inside.0))
        λ n. apply_pvcs-Keeps ps inside.1

  pub apply_if_some-Keeps :
      {A : Type 0} (f : A → Object F) (prefix : String) (o : Option A)
      → All P (want_slots (wanted f o))
      → Keeps (AppliesIn P) (apply_if_some S K prefix (object_of S K f o))
  unfolding apply_if_some
  apply_if_some-Keeps f prefix none inside = Keeps-pure tt
  apply_if_some-Keeps f prefix (some a) inside =
      Keeps-bind _ _ (Keeps-wrapping _ _ (apply_owned-Keeps (f a) inside.0)) λ n. Keeps-pure tt

All-split : {A : Type 0} (P : A → Type 0) (xs ys : List A) → All P (xs ++ ys) → All P xs × All P ys
All-split P [] ys all = (tt, all)
All-split P (x ∷ xs) ys all = let (left, right) = All-split P xs ys all.1 in ((all.0, left), right)

module _ {F : Foreign} (P : Slot → Type 0) where
  pub slots-split :
      (ws vs : List (Want F))
      → All P (want_slots (ws ++ vs))
      → All P (want_slots ws) × All P (want_slots vs)
  slots-split ws vs all =
      All-split P (want_slots ws) (want_slots vs)
        (rw (map-append (λ (w : Want F). slot_of w.object) ws vs) at all)

-- The places of what each step applies.
pub record Inside {F : Foreign} (P : Slot → Type 0) (i : PaperlessInstance F) : Type 0 where
  pub storage : All P (want_slots (storage_wants i))
  pub database : All P (want_slots (database_wants i))
  pub cache : All P (want_slots (cache_wants i))
  pub workload : All P (want_slots (workload_wants i))

pub Inside-desired :
    {F : Foreign} (P : Slot → Type 0) (i : PaperlessInstance F)
    → All P (want_slots (desired i))
    → Inside P i
unfolding desired
Inside-desired P i all =
    let (storage, rest) = slots-split P (storage_wants i) _ all in
    let (database, rest') = slots-split P (database_wants i) _ rest in
    let (cache, workload) = slots-split P (cache_wants i) _ rest' in
    record { storage = storage; database = database; cache = cache; workload = workload }

pub Inside-version :
    {F : Foreign} {P : Slot → Type 0} {i j : PaperlessInstance F}
    → SameButStatus i j
    → Inside P i
    → Inside P j
Inside-version version inside = record {
  storage = rw (storage_wants-status version) inside.storage;
  database = rw (database_wants-status version) inside.database;
  cache = rw (cache_wants-status version) inside.cache;
  workload = rw (workload_wants-status version) inside.workload;
}

module _ {F : Foreign} (P : Slot → Type 0) (c : Unstructured F) where
  pub built_cluster :
      (o : Option ExternalDatabase) (r : Result (Unstructured F))
      → o ≡ none
      → r ≡ ok c
      → All P (want_slots (wanted_cluster o r))
      → P (slot_of (unstructured c))
  built_cluster none (ok d) managed is all = let same_ : d ≡ c = cc in rw (← same_) all.0
  built_cluster none (err e) managed is all = absurd (cc)
  built_cluster (some ext) r managed is all = absurd (cc)
