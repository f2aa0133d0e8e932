-- ===== src/Kube/Json.antt =====
-- JSON values as `encoding/json` decodes them into `interface{}`: an object is a
-- `map[string]interface{}`, here an association list. A map of Go has no order, so equality of
-- the lists stands for equality of the maps.
pub mod Same
use paperless_ngx_operator.Prelude.{
  ℤ, String, ◌==◌, Bool, Option, none, some, List, [], ◌∷◌, ◌≡◌, refl, arith, eq_iff, if◌then◌else◌,
}

mutual
  pub data Json : Type 0 where
    null : Json
    bool : Bool → Json
    number : ℤ → Json
    string : String → Json
    array : Items → Json
    object : Fields → Json

  pub data Items : Type 0 where
    nil : Items
    cons : Json → Items → Items

  pub data Fields : Type 0 where
    end : Fields
    field : String → Json → Fields → Fields

-- `m[k]`, with the `ok` of the comma-ok form as an option
unfoldable pub lookup : String → Fields → Option Json
lookup k end = none
lookup k (field j v m) = if j == k then some v else lookup k m

-- `m[k] = v`
unfoldable pub insert : String → Json → Fields → Fields
insert k v end = field k v end
insert k v (field j w m) = let rest = insert k v m in if j == k then field j v m else field j w rest

pub lookup-insert :
    (k j : String) (v : Json) (m : Fields)
    → lookup j (insert k v m) ≡ (if k == j then some v else lookup j m)
unfolding lookup insert
lookup-insert k j v end = refl
lookup-insert k j v (field i w m) =
    ground (arith, eq_iff k j, eq_iff i k, eq_iff i j, lookup-insert k j v m)

-- The fields of a value, if it is an object.
abbrev pub fields_of : Option Json → Fields
fields_of (some (object m)) = m
fields_of _ = end

-- The value at a path of keys.
abbrev pub at_path : String → List String → Fields → Option Json
at_path k [] m = lookup k m
at_path k (j ∷ ks) m = at_path j ks (fields_of (lookup k m))
