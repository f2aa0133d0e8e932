-- ===== src/Resources/Env/Upsert.antt =====
-- The specification of `dedupeEnv`: an entry replaces the one of its name, or goes to the end.
use paperless_ngx_operator.Prelude.{
  String, ◌==◌, Bool, false, ◌||◌, Option, none, some, List, [], ◌∷◌, ◌++◌, ◌≡◌, refl, arith,
  eq_iff, any, if◌then◌else◌, Bool-cases, inl, inr,
}
use paperless_ngx_operator.Kube.{Foreign}
use paperless_ngx_operator.Kube.Objects.{EnvVar}

module _ {F : Foreign} where
  unfoldable pub upsert : EnvVar F → List (EnvVar F) → List (EnvVar F)
  upsert e [] = e ∷ []
  upsert e (x ∷ out) = let rest = upsert e out in if x.name == e.name then e ∷ out else x ∷ rest

  unfoldable pub upsert_all : List (EnvVar F) → List (EnvVar F) → List (EnvVar F)
  upsert_all [] out = out
  upsert_all (e ∷ env) out = upsert_all env (upsert e out)

  -- The first entry of a name, as a reader of the list finds it.
  unfoldable pub find : String → List (EnvVar F) → Option (EnvVar F)
  find name [] = none
  find name (x ∷ env) = if x.name == name then some x else find name env

  abbrev pub or_else : Option (EnvVar F) → Option (EnvVar F) → Option (EnvVar F)
  or_else none o = o
  or_else (some e) o = some e

  -- The last entry of a name.
  unfoldable pub find_last : String → List (EnvVar F) → Option (EnvVar F)
  find_last name [] = none
  find_last name (x ∷ env) = or_else (find_last name env) (if x.name == name then some x else none)

  pub find-upsert :
      (name : String) (e : EnvVar F) (out : List (EnvVar F))
      → find name (upsert e out) ≡ (if e.name == name then some e else find name out)
  unfolding find upsert
  find-upsert name e [] = refl
  find-upsert name e (x ∷ out) =
      ground (
        arith,
        eq_iff x.name e.name,
        eq_iff x.name name,
        eq_iff e.name name,
        find-upsert name e out,
      )

  pub find-upsert_all :
      (name : String) (env out : List (EnvVar F))
      → find name (upsert_all env out) ≡ or_else (find_last name env) (find name out)
  unfolding upsert_all find_last
  find-upsert_all name [] out = refl
  find-upsert_all name (e ∷ env) out =
      rw (find-upsert_all name env (upsert e out), find-upsert) (ground arith)

  -- Whether a name stands in the list.
  abbrev pub has_name : String → List (EnvVar F) → Bool
  has_name name env = any (λ x. x.name == name) env

  -- No two entries have one name.
  abbrev pub DistinctNames : List (EnvVar F) → Type 0
  DistinctNames [] = Unit
  DistinctNames (x ∷ env) = (has_name x.name env ≡ false) × DistinctNames env

  has_name-upsert :
      (name : String) (e : EnvVar F) (out : List (EnvVar F))
      → has_name name (upsert e out) ≡ (e.name == name || has_name name out)
  unfolding upsert
  has_name-upsert name e [] = refl
  has_name-upsert name e (x ∷ out) = ground (
    arith,
    eq_iff x.name e.name,
    eq_iff x.name name,
    eq_iff e.name name,
    has_name-upsert name e out,
  )

  pub upsert-DistinctNames :
      (e : EnvVar F) (out : List (EnvVar F)) → DistinctNames out → DistinctNames (upsert e out)
  unfolding upsert
  upsert-DistinctNames e [] h = (refl, tt)
  upsert-DistinctNames e (x ∷ out) (fresh, h) = elim (Bool-cases (x.name == e.name)) [
    | inl same ↦ rw same (rw (← (eq_iff x.name e.name).0 same) (fresh, h))
    | inr other ↦ rw other (
      rw has_name-upsert (ground (arith, eq_iff e.name x.name, eq_iff x.name e.name)),
      upsert-DistinctNames e out h,
    )
  ]

  pub upsert_all-DistinctNames :
      (env out : List (EnvVar F)) → DistinctNames out → DistinctNames (upsert_all env out)
  unfolding upsert_all
  upsert_all-DistinctNames [] out h = h
  upsert_all-DistinctNames (e ∷ env) out h =
      upsert_all-DistinctNames env (upsert e out) (upsert-DistinctNames e out h)

  -- An entry of the second list comes before one of the first.
  pub find_last-append :
      (name : String) (env more : List (EnvVar F))
      → find_last name (env ++ more) ≡ or_else (find_last name more) (find_last name env)
  unfolding find_last
  find_last-append name [] more = ground arith
  find_last-append name (x ∷ env) more = rw (find_last-append name env more) (ground arith)
