-- ===== src/Controller/Desired/Apart.antt =====
-- When the places of two instances are different (internal/resources/names.go).
use Prim.Native.String.{count}
use text.Mathlib.TextLemmas.{append_assoc, append_inj, length-append, nil-append, cons-append}
use paperless_ngx_operator.Prelude.{
  String, ◌<>◌, ◌==◌, eqb, Bool, true, false, ◌&&◌, ◌||◌, not, All, Option, none, some, List, [],
  ◌∷◌, map, ◌≡◌, ◌≢◌, ◌⊎◌, refl, sym, ◌∙◌, ap, arith, inl, inr, Bool-cases, eq_iff, and_left,
  and_right, if◌then◌else◌, eqb→eq,
}
use paperless_ngx_operator.Kube.{Foreign}
use paperless_ngx_operator.Api.Types.{PaperlessInstance}
use paperless_ngx_operator.Resources.Names.{derived_name, valkey_name}
use paperless_ngx_operator.Resources.Names.Distinct.{derived_name-eq_iff}
use paperless_ngx_operator.Controller.Desired.{want_slots, desired}
use paperless_ngx_operator.Controller.Desired.Slots.{
  Place, derived, place_name, place_slot, places, desired-places, All-sublist,
}

-- Whether the end of `t` that is as long as `s` is another text.
abbrev other_end : String → String → Bool
other_end s String.[] = false
other_end s (String.◌∷◌ c t) =
    let rest = other_end s t in
    if eqb (count s) (count (String.◌∷◌ c t)) then not (s == String.◌∷◌ c t) else rest

other_end-split :
    (s t : String)
    → other_end s t ≡ true
    → (u : String) × (v : String) × (t ≡ u <> v) × (count s ≡ count v) × ((s == v) ≡ false)
other_end-split s String.[] h = absurd (cc)
other_end-split s (String.◌∷◌ c t) h = elim (Bool-cases (eqb (count s) (count (String.◌∷◌ c t)))) [
  | inl long ↦ ("", String.◌∷◌ c t, sym (nil-append _), eqb→eq _ _ long, ground arith)
  | inr longer ↦
      let (u, v, is, len, differ) = other_end-split s t (ground arith) in
      (String.◌∷◌ c u, v, ap (λ r. String.◌∷◌ c r) is ∙ sym (cons-append c u v), len, differ)
]

ends-ne : (a b s u v : String) → count s ≡ count v → (s == v) ≡ false → a <> s ≢ b <> (u <> v)
ends-ne a b s u v len differ e =
    let split : a <> s ≡ (b <> u) <> v = e ∙ sym (append_assoc b u v) in
    let starts : count a ≡ count (b <> u) =
      omega (arith, ap count split, length-append a s, length-append (b <> u) v, len) in
    ground (arith, (append_inj split starts).1, eq_iff s v, differ)

-- Whether the names of two instances that end so can be equal only if those of the instances are,
-- or if one is named as the cache of the other.
abbrev apart_suffixes : Option String → Option String → Bool
apart_suffixes none none = true
apart_suffixes none (some t) = t == "valkey"
apart_suffixes (some s) none = s == "valkey"
apart_suffixes (some s) (some t) = s == t || (other_end s t || other_end t s)

abbrev apart_places : Place → Place → Bool
apart_places p q = not (p.kind == q.kind) || apart_suffixes p.suffix q.suffix

abbrev all_apart : Place → List Place → Bool
all_apart p [] = true
all_apart p (q ∷ qs) = apart_places p q && all_apart p qs

abbrev lists_apart : List Place → List Place → Bool
lists_apart [] qs = true
lists_apart (p ∷ ps) qs = all_apart p qs && lists_apart ps qs

places_apart : lists_apart places places ≡ true
places_apart = refl

either_true : (a b : Bool) → (a || b) ≡ true → (a ≡ true) ⊎ (b ≡ true)
either_true true b h = inl refl
either_true false b h = inr h

derived_name-other_end :
    {F : Foreign} (i j : PaperlessInstance F) (s t : String)
    → other_end s t ≡ true
    → derived_name i s ≢ derived_name j t
unfolding derived_name
derived_name-other_end i j s t h e =
    let (u, v, is, len, differ) = other_end-split s t h in
    ends-ne (i.name <> "-") (j.name <> "-") s u v len differ (e ∙ ap (λ r. (j.name <> "-") <> r) is)

-- The instances are in different namespaces, or have different names and neither is named as the
-- cache of the other.
abbrev pub Apart : {F : Foreign} → PaperlessInstance F → PaperlessInstance F → Type 0
Apart i j =
    (i.namespace ≢ j.namespace)
    ⊎ ((i.name ≢ j.name) × (i.name ≢ valkey_name j) × (j.name ≢ valkey_name i))

module _ {F : Foreign} (i j : PaperlessInstance F) (names : i.name ≢ j.name)
    (left : i.name ≢ valkey_name j) (right : j.name ≢ valkey_name i) where
  derived_names-ne :
      (s t : String)
      → (s == t || (other_end s t || other_end t s)) ≡ true
      → derived_name i s ≢ derived_name j t
  derived_names-ne s t h e = elim (either_true _ _ h) [
    | inl equal ↦
        let suffixes : s ≡ t = (eq_iff s t).0 equal in
        names ((derived_name-eq_iff i j s).0 (e ∙ ap (derived_name j) (sym suffixes)))
    | inr differ ↦ elim (either_true _ _ differ) [
      | inl shorter ↦ derived_name-other_end i j s t shorter e
      | inr longer ↦ derived_name-other_end j i t s longer (sym e)
    ]
  ]

  place_names-ne :
      (s t : Option String) → apart_suffixes s t ≡ true → place_name i s ≢ place_name j t
  place_names-ne none none h e = names e
  place_names-ne none (some t) h e = left (e ∙ ap (derived_name j) ((eq_iff t "valkey").0 h))
  place_names-ne (some s) none h e = right (sym e ∙ ap (derived_name i) ((eq_iff s "valkey").0 h))
  place_names-ne (some s) (some t) h e = derived_names-ne s t h e

All-map :
    {A : Type 0} {P Q : A → Type 0} → ((a : A) → P a → Q a) → (xs : List A) → All P xs → All Q xs
All-map f [] all = tt
All-map f (x ∷ xs) all = (f x all.0, All-map f xs all.1)

module _ {F : Foreign} (i j : PaperlessInstance F) (apart : Apart i j) where
  place_slots-ne : (p q : Place) → apart_places p q ≡ true → place_slot i p ≢ place_slot j q
  place_slots-ne p q h e = elim apart [
    | inl namespaces ↦ namespaces (ap (λ s. s.namespace) e)
    | inr (names, left, right) ↦
        let kinds : p.kind ≡ q.kind = ap (λ s. s.kind) e in
        place_names-ne i j names left right p.suffix q.suffix
          (ground (arith, eq_iff p.kind q.kind, kinds)) (ap (λ s. s.name) e)
  ]

  place_slot-All :
      (p : Place) (qs : List Place)
      → all_apart p qs ≡ true
      → All (λ slot. place_slot i p ≢ slot) (map (place_slot j) qs)
  place_slot-All p [] h = tt
  place_slot-All p (q ∷ qs) h =
      (place_slots-ne p q (and_left _ _ h), place_slot-All p qs (and_right _ _ h))

  place_slots-All :
      (ps qs : List Place)
      → lists_apart ps qs ≡ true
      → All (λ a. All (λ b. a ≢ b) (map (place_slot j) qs)) (map (place_slot i) ps)
  place_slots-All [] qs h = tt
  place_slots-All (p ∷ ps) qs h =
      (place_slot-All p qs (and_left _ _ h), place_slots-All ps qs (and_right _ _ h))

  pub desired_places-All :
      All (λ a. All (λ b. a ≢ b) (want_slots (desired j))) (want_slots (desired i))
  desired_places-All = All-sublist _ (desired-places i) (
      All-map (λ a. All-sublist (λ b. a ≢ b) (desired-places j)) (map (place_slot i) places)
        (place_slots-All places places places_apart))

  -- No Secret of one of the instances has the place of one of the other's.
  pub secret_slots-ne :
      (s t : String)
      → apart_suffixes (some s) (some t) ≡ true
      → place_slot i (derived "Secret" s) ≢ place_slot j (derived "Secret" t)
  secret_slots-ne s t h = place_slots-ne (derived "Secret" s) (derived "Secret" t) h
