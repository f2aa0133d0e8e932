-- ===== src/Kube/Access.antt =====
-- The authorization of requests by role (rbac.authorization.k8s.io): rules, and what a request
-- needs.
use paperless_ngx_operator.Prelude.{
  Bool, true, false, String, ◌==◌, ◌&&◌, ◌||◌, List, [], ◌∷◌, ◌≡◌, refl, and_left, and_right, ◌⊎◌,
  inl, inr,
}

-- A `PolicyRule`: each verb on each resource of each group.
pub record Rule : Type 0 where
  pub groups : List String
  pub resources : List String
  pub verbs : List String

pub record Need : Type 0 where
  pub group : String
  pub resource : String
  pub verb : String

abbrev pub contains : List String → String → Bool
contains [] s = false
contains (x ∷ xs) s = (x == s) || contains xs s

abbrev pub rule_permits : Rule → Need → Bool
rule_permits r n =
    contains r.groups n.group && (contains r.resources n.resource && contains r.verbs n.verb)

abbrev pub permits : List Rule → Need → Bool
permits [] n = false
permits (r ∷ rules) n = rule_permits r n || permits rules n

abbrev pub needs_of : String → String → List String → List Need
needs_of group resource [] = []
needs_of group resource (verb ∷ verbs) =
    record { group = group; resource = resource; verb = verb } ∷ needs_of group resource verbs

-- A need is one of some; each of some needs is one of some others.
abbrev pub Among : Need → List Need → Type 0
Among n [] = ⊥
Among n (m ∷ ms) = (n ≡ m) ⊎ Among n ms

abbrev pub Within : List Need → List Need → Type 0
Within [] ms = Unit
Within (n ∷ ns) ms = Among n ms × Within ns ms

-- Each of the needs is permitted.
abbrev pub all_permitted : List Rule → List Need → Bool
all_permitted rules [] = true
all_permitted rules (n ∷ ns) = permits rules n && all_permitted rules ns

permits-Among :
    (rules : List Rule) (n : Need) (ms : List Need)
    → all_permitted rules ms ≡ true
    → Among n ms
    → permits rules n ≡ true
permits-Among rules n [] all is = absurd is
permits-Among rules n (m ∷ ms) all (inl same) = rw same (and_left (permits rules m) _ all)
permits-Among rules n (m ∷ ms) all (inr later) =
    permits-Among rules n ms (and_right (permits rules m) _ all) later

-- Whatever is within needs that are permitted is permitted.
pub all_permitted-Within :
    (rules : List Rule) (ns ms : List Need)
    → all_permitted rules ms ≡ true
    → Within ns ms
    → all_permitted rules ns ≡ true
all_permitted-Within rules [] ms all within = refl
all_permitted-Within rules (n ∷ ns) ms all (first, rest) =
    rw (permits-Among rules n ms all first, all_permitted-Within rules ns ms all rest) refl
