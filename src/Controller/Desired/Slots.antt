-- ===== src/Controller/Desired/Slots.antt =====
-- The places of the objects that an instance asks for
-- (internal/resources/names.go and the builders).
use mathlib.Core.Path.{subst}
use mathlib.Core.List.{Sublistᴰ, map-append}
use mathlib.Core.List.Sublistᴰ as Sublist
use paperless_ngx_operator.Prelude.{
  String, ◌==◌, Bool, true, false, ◌&&◌, not, any, All, Option, none, some, List, [], ◌∷◌, ◌++◌,
  map, Result, ok, err, ◌≡◌, ◌≢◌, refl, sym, ap, arith, inl, inr, Bool-cases, eq_iff,
}
use paperless_ngx_operator.Kube.{Foreign}
use paperless_ngx_operator.Kube.Objects.{Object, Secret, Unstructured, deployment, service, pvc}
use paperless_ngx_operator.Api.Types.{PaperlessInstance, ExternalDatabase}
use paperless_ngx_operator.Resources.Names.{derived_name, secret_key_name, admin_secret_name}
use paperless_ngx_operator.Resources.Names.Distinct.{
  Distinct, derived_name-suffix, name-ne-derived_name,
}
use paperless_ngx_operator.Resources.Secrets.{validate_name}
use paperless_ngx_operator.Resources.Storage.{pvcs}
use paperless_ngx_operator.Resources.Cache.{valkey_deployment, valkey_service, valkey_pvc}
use paperless_ngx_operator.Resources.Database.{cnpg_cluster}
use paperless_ngx_operator.Resources.Workload
use paperless_ngx_operator.Controller.Desired.{
  Want, Slot, slot_of, want_slots, wanted, wanted_cluster, storage_wants, database_wants,
  cache_wants, workload_wants, desired,
}

-- A kind, and what the name has after that of the instance.
pub record Place : Type 0 where
  pub kind : String
  pub suffix : Option String

abbrev suffix_eq : Option String → Option String → Bool
suffix_eq none none = true
suffix_eq none (some t) = false
suffix_eq (some s) none = false
suffix_eq (some s) (some t) = s == t

abbrev place_eq : Place → Place → Bool
place_eq p q = p.kind == q.kind && suffix_eq p.suffix q.suffix

abbrev distinct_places : List Place → Bool
distinct_places [] = true
distinct_places (p ∷ ps) = not (any (place_eq p) ps) && distinct_places ps

abbrev pub plain : String → Place
plain kind = record { kind = kind; suffix = none }

abbrev pub derived : String → String → Place
derived kind suffix = record { kind = kind; suffix = some suffix }

abbrev pub storage_places : List Place
storage_places =
    derived "PersistentVolumeClaim" "data"
    ∷ derived "PersistentVolumeClaim" "media"
    ∷ derived "PersistentVolumeClaim" "consume"
    ∷ derived "PersistentVolumeClaim" "export"
    ∷ []

abbrev pub cache_places : List Place
cache_places =
    derived "Deployment" "valkey"
    ∷ derived "Service" "valkey"
    ∷ derived "PersistentVolumeClaim" "valkey"
    ∷ []

abbrev pub workload_places : List Place
workload_places = plain "Service" ∷ plain "Deployment" ∷ []

abbrev pub places : List Place
places = storage_places ++ (derived "Cluster" "db" ∷ (cache_places ++ workload_places))

pub All-sublist :
    {A : Type 0} (P : A → Type 0) {xs ys : List A} → Sublistᴰ xs ys → All P ys → All P xs
All-sublist P Sublistᴰ.slnil all = tt
All-sublist P (Sublistᴰ.cons s) all = All-sublist P s all.1
All-sublist P (Sublistᴰ.cons-cons e s) all = (subst P (sym e) all.0, All-sublist P s all.1)

Distinct-sublist : {A : Type 0} {xs ys : List A} → Sublistᴰ xs ys → Distinct ys → Distinct xs
Distinct-sublist Sublistᴰ.slnil distinct = tt
Distinct-sublist (Sublistᴰ.cons s) distinct = Distinct-sublist s distinct.1
Distinct-sublist (Sublistᴰ.cons-cons {l₁ = l₁} e s) distinct = (
  subst (λ x. All (λ y. x ≢ y) l₁) (sym e) (All-sublist (λ y. _ ≢ y) s distinct.0),
  Distinct-sublist s distinct.1,
)

module _ {F : Foreign} (i : PaperlessInstance F) where
  abbrev pub place_name : Option String → String
  place_name none = i.name
  place_name (some s) = derived_name i s

  abbrev pub place_slot : Place → Slot
  place_slot p = record { kind = p.kind; name = place_name p.suffix; namespace = i.namespace }

  place_name-suffix_eq : (s t : Option String) → place_name s ≡ place_name t → suffix_eq s t ≡ true
  place_name-suffix_eq none none e = refl
  place_name-suffix_eq none (some t) e = absurd (name-ne-derived_name i t e)
  place_name-suffix_eq (some s) none e = absurd (name-ne-derived_name i s (sym e))
  place_name-suffix_eq (some s) (some t) e = elim (Bool-cases (s == t)) [
    | inl is ↦ is
    | inr differ ↦ absurd (derived_name-suffix i s t differ e)
  ]

  place_slot-ne : (p q : Place) → place_eq p q ≡ false → place_slot p ≢ place_slot q
  place_slot-ne p q differ e =
      let kinds : p.kind ≡ q.kind = ap (λ s. s.kind) e in
      ground (
        arith,
        kinds,
        eq_iff p.kind q.kind,
        place_name-suffix_eq p.suffix q.suffix (ap (λ s. s.name) e),
      )

  place_slot-All :
      (p : Place) (ps : List Place)
      → any (place_eq p) ps ≡ false
      → All (λ s. place_slot p ≢ s) (map place_slot ps)
  place_slot-All p [] differ = tt
  place_slot-All p (q ∷ ps) differ =
      (place_slot-ne p q (ground arith), place_slot-All p ps (ground arith))

  place_slots-Distinct :
      (ps : List Place) → distinct_places ps ≡ true → Distinct (map place_slot ps)
  place_slots-Distinct [] distinct = tt
  place_slots-Distinct (p ∷ ps) distinct =
      (place_slot-All p ps (ground arith), place_slots-Distinct ps (ground arith))

  wanted-places :
      {A : Type 0} (f : A → Object F) (o : Option A) (p : Place)
      → ((a : A) → o ≡ some a → slot_of (f a) ≡ place_slot p)
      → Sublistᴰ (want_slots (wanted f o)) (place_slot p ∷ [])
  wanted-places f none p is = Sublistᴰ.cons Sublistᴰ.slnil
  wanted-places f (some a) p is = Sublistᴰ.cons-cons (is a refl) Sublistᴰ.slnil

  wanted_cluster-places :
      (o : Option ExternalDatabase) (r : Result (Unstructured F))
      → cnpg_cluster i ≡ r
      → Sublistᴰ (want_slots (wanted_cluster o r)) (place_slot (derived "Cluster" "db") ∷ [])
  unfolding cnpg_cluster validate_name
  wanted_cluster-places none (err e) is = Sublistᴰ.cons Sublistᴰ.slnil
  wanted_cluster-places none (ok c) is = Sublistᴰ.cons-cons (ground arith) Sublistᴰ.slnil
  wanted_cluster-places (some ext) r is = Sublistᴰ.cons Sublistᴰ.slnil

  database_wants-places :
      Sublistᴰ (want_slots (database_wants i)) (place_slot (derived "Cluster" "db") ∷ [])
  unfolding database_wants
  database_wants-places = wanted_cluster-places _ _ refl

  storage_wants-places : want_slots (storage_wants i) ≡ map place_slot storage_places
  unfolding storage_wants pvcs
  storage_wants-places = refl

  append-places :
      (ws vs : List (Want F)) (ps qs : List Place)
      → Sublistᴰ (want_slots ws) (map place_slot ps)
      → Sublistᴰ (want_slots vs) (map place_slot qs)
      → Sublistᴰ (want_slots (ws ++ vs)) (map place_slot (ps ++ qs))
  append-places ws vs ps qs first rest =
      rw (map-append (λ (w : Want F). slot_of w.object) ws vs, map-append place_slot ps qs)
        (Sublist.append first rest)

  cache_wants-places : Sublistᴰ (want_slots (cache_wants i)) (map place_slot cache_places)
  unfolding cache_wants valkey_deployment valkey_service valkey_pvc
  cache_wants-places =
      append-places _ _ (derived "Deployment" "valkey" ∷ [])
        (derived "Service" "valkey" ∷ derived "PersistentVolumeClaim" "valkey" ∷ [])
        (wanted-places deployment (valkey_deployment i) (derived "Deployment" "valkey")
          λ a is. ground arith)
        (append-places _ _ (derived "Service" "valkey" ∷ [])
          (derived "PersistentVolumeClaim" "valkey" ∷ [])
          (wanted-places service (valkey_service i) (derived "Service" "valkey")
            λ a is. ground arith)
          (wanted-places pvc (valkey_pvc i) (derived "PersistentVolumeClaim" "valkey")
            λ a is. ground arith))

  workload_wants-places : want_slots (workload_wants i) ≡ map place_slot workload_places
  unfolding workload_wants Workload.service Workload.deployment
  workload_wants-places = refl

  pub desired-places : Sublistᴰ (want_slots (desired i)) (map place_slot places)
  unfolding desired
  desired-places =
      append-places (storage_wants i) _ storage_places
        (derived "Cluster" "db" ∷ (cache_places ++ workload_places))
        (rw storage_wants-places (Sublist.refl _))
        (append-places (database_wants i) _ (derived "Cluster" "db" ∷ [])
          (cache_places ++ workload_places) database_wants-places
          (append-places (cache_wants i) (workload_wants i) cache_places workload_places
            cache_wants-places (rw workload_wants-places (Sublist.refl _))))

  pub wants-Distinct : Distinct (want_slots (desired i))
  wants-Distinct = Distinct-sublist desired-places (place_slots-Distinct places refl)

  -- The places of the two Secrets that a reconcile looks for, and generates where they are
  -- missing.
  abbrev pub secret_slots : List Slot
  secret_slots =
      record { kind = "Secret"; name = secret_key_name i; namespace = i.namespace }
      ∷ record { kind = "Secret"; name = admin_secret_name i; namespace = i.namespace }
      ∷ []

  abbrev pub secret_slot : Secret F → Slot
  secret_slot s = record {
    kind = "Secret";
    name = s.metadata.name;
    namespace = s.metadata.namespace;
  }
