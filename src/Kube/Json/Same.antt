-- ===== src/Kube/Json/Same.antt =====
-- Sameness of the JSON values that the operator decodes (internal/controller/deletion_policy.go):
-- maps have no order.
use paperless_ngx_operator.Prelude.{ℕ, zero, suc, String, Option, none, some, ◌≡◌, refl}
use paperless_ngx_operator.Kube.Json.{
  Json, null, bool, number, string, array, object, Items, nil, cons, Fields, lookup,
}

abbrev pub SameItems : (Json → Json → Type 0) → Items → Items → Type 0
SameItems R nil nil = Unit
SameItems R (cons a l) (cons b m) = R a b × SameItems R l m
SameItems R _ _ = ⊥

abbrev pub SameOption : (Json → Json → Type 0) → Option Json → Option Json → Type 0
SameOption R none none = Unit
SameOption R (some a) (some b) = R a b
SameOption R _ _ = ⊥

-- The values are equal down to a depth, where two objects are if they have the same keys with
-- equal values.
abbrev pub SameTo : ℕ → Json → Json → Type 0
SameTo zero a b = Unit
SameTo (suc n) null null = Unit
SameTo (suc n) (bool a) (bool b) = a ≡ b
SameTo (suc n) (number a) (number b) = a ≡ b
SameTo (suc n) (string a) (string b) = a ≡ b
SameTo (suc n) (array l) (array m) = SameItems (SameTo n) l m
SameTo (suc n) (object l) (object m) =
    (k : String) → SameOption (SameTo n) (lookup k l) (lookup k m)
SameTo (suc n) _ _ = ⊥

-- The same value, or none in both places, at every depth.
abbrev pub Same : Option Json → Option Json → Type 0
Same a b = (n : ℕ) → SameOption (SameTo n) a b

-- The same values at the same keys.
abbrev pub SameMap : Fields → Fields → Type 0
SameMap l m = (k : String) → Same (lookup k l) (lookup k m)

pub Same-object :
    (l : Fields) (o : Option Json)
    → Same (some (object l)) o
    → (m : Fields) × (o ≡ some (object m)) × SameMap l m
Same-object l none h = absurd (h 0)
Same-object l (some null) h = absurd (h 1)
Same-object l (some (bool b)) h = absurd (h 1)
Same-object l (some (number b)) h = absurd (h 1)
Same-object l (some (string b)) h = absurd (h 1)
Same-object l (some (array b)) h = absurd (h 1)
Same-object l (some (object m)) h = (m, refl, λ k n. h (suc n) k)

pub Same-array :
    (l : Items) (o : Option Json)
    → Same (some (array l)) o
    → (m : Items) × (o ≡ some (array m)) × ((n : ℕ) → SameItems (SameTo n) l m)
Same-array l none h = absurd (h 0)
Same-array l (some null) h = absurd (h 1)
Same-array l (some (bool b)) h = absurd (h 1)
Same-array l (some (number b)) h = absurd (h 1)
Same-array l (some (string b)) h = absurd (h 1)
Same-array l (some (object b)) h = absurd (h 1)
Same-array l (some (array m)) h = (m, refl, λ n. h (suc n))

SameItems-refl : (R : Json → Json → Type 0) → ((a : Json) → R a a) → (l : Items) → SameItems R l l
SameItems-refl R refl_ nil = tt
SameItems-refl R refl_ (cons a l) = (refl_ a, SameItems-refl R refl_ l)

SameOption-refl :
    (R : Json → Json → Type 0) → ((a : Json) → R a a) → (o : Option Json) → SameOption R o o
SameOption-refl R refl_ none = tt
SameOption-refl R refl_ (some a) = refl_ a

SameTo-refl : (n : ℕ) (a : Json) → SameTo n a a
SameTo-refl zero a = tt
SameTo-refl (suc n) null = tt
SameTo-refl (suc n) (bool b) = refl
SameTo-refl (suc n) (number b) = refl
SameTo-refl (suc n) (string b) = refl
SameTo-refl (suc n) (array l) = SameItems-refl (SameTo n) (SameTo-refl n) l
SameTo-refl (suc n) (object m) = λ k. SameOption-refl (SameTo n) (SameTo-refl n) (lookup k m)

pub Same-refl : (o : Option Json) → Same o o
Same-refl o n = SameOption-refl (SameTo n) (SameTo-refl n) o
