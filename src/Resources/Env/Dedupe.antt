-- ===== src/Resources/Env/Dedupe.antt =====
-- The loop of `dedupeEnv`, with its index of positions, implements the specification.
use mathlib.Core.Option
use paperless_ngx_operator.Prelude.{
  ℕ, zero, suc, String, ◌==◌, Option, none, some, List, [], ◌∷◌, ◌++◌, ◌≡◌, refl, arith, eq_iff,
  length, set, lookup, if◌then◌else◌, inl, inr, Option-cases,
}
use paperless_ngx_operator.Kube.{Foreign}
use paperless_ngx_operator.Kube.Objects.{EnvVar}
use paperless_ngx_operator.Resources.Env.{Index, dedupe_loop, dedupe_env}
use paperless_ngx_operator.Resources.Env.Upsert.{
  upsert, upsert_all, find, find_last, find-upsert_all, DistinctNames, upsert_all-DistinctNames,
}

module _ {F : Foreign} where
  -- The position of the entry of a name.
  abbrev position : String → List (EnvVar F) → Option ℕ
  position name [] = none
  position name (x ∷ out) = if x.name == name then some 0 else Option.map suc (position name out)

  -- The map `index` holds the position of every name in `out`.
  abbrev IsIndex : Index → List (EnvVar F) → Type 0
  IsIndex index out = (name : String) → lookup name index ≡ position name out

  position-append :
      (name : String) (e : EnvVar F) (out : List (EnvVar F))
      → position e.name out ≡ none
      → position name (out ++ (e ∷ []))
        ≡ (if e.name == name then some (length out) else position name out)
  position-append name e [] h = refl
  position-append name e (x ∷ out) h = ground (
    arith,
    eq_iff x.name e.name,
    eq_iff x.name name,
    eq_iff e.name name,
    position-append name e out,
  )

  IsIndex-append :
      (e : EnvVar F) (index : Index) (out : List (EnvVar F))
      → IsIndex index out
      → position e.name out ≡ none
      → IsIndex ((e.name, length out) ∷ index) (out ++ (e ∷ []))
  unfolding lookup
  IsIndex-append e index out h new name =
      rw (position-append name e out new) (ground (arith, h name))

  upsert_absent :
      (e : EnvVar F) (out : List (EnvVar F))
      → position e.name out ≡ none
      → upsert e out ≡ out ++ (e ∷ [])
  unfolding upsert
  upsert_absent e [] h = refl
  upsert_absent e (x ∷ out) h = ground (arith, upsert_absent e out)

  set-eq-upsert :
      (e : EnvVar F) (out : List (EnvVar F)) (i : ℕ)
      → position e.name out ≡ some i
      → set out i e ≡ upsert e out
  unfolding upsert
  set-eq-upsert e [] i h = ground arith
  set-eq-upsert e (x ∷ out) zero h = ground arith
  set-eq-upsert e (x ∷ out) (suc i) h = ground (arith, set-eq-upsert e out i)

  position-upsert :
      (name : String) (e : EnvVar F) (out : List (EnvVar F)) (i : ℕ)
      → position e.name out ≡ some i
      → position name (upsert e out) ≡ position name out
  unfolding upsert
  position-upsert name e [] i h = ground arith
  position-upsert name e (x ∷ out) zero h = ground (arith, eq_iff x.name e.name)
  position-upsert name e (x ∷ out) (suc i) h = ground (arith, position-upsert name e out i)

  dedupe_loop-eq-upsert_all :
      (env : List (EnvVar F)) (index : Index) (out : List (EnvVar F))
      → IsIndex index out
      → dedupe_loop env index out ≡ upsert_all env out
  unfolding dedupe_loop upsert_all
  dedupe_loop-eq-upsert_all [] index out h = refl
  dedupe_loop-eq-upsert_all (e ∷ env) index out h = elim (Option-cases (lookup e.name index)) [
    | inl absent ↦
        let new : position e.name out ≡ none = cc (h e.name) in
        rw (absent, dedupe_loop, upsert_absent e out new)
          (dedupe_loop-eq-upsert_all env _ _ (IsIndex-append e index out h new))
    | inr (i, found) ↦
        let old : position e.name out ≡ some i = cc (h e.name) in
        rw (found, dedupe_loop, set-eq-upsert e out i old)
          (dedupe_loop-eq-upsert_all env index _
            (λ name. rw (position-upsert name e out i old) (h name)))
  ]

  -- The loop replaces or appends, whatever the environment.
  pub dedupe_env-eq-upsert_all : (env : List (EnvVar F)) → dedupe_env env ≡ upsert_all env []
  unfolding dedupe_env lookup
  dedupe_env-eq-upsert_all env = dedupe_loop-eq-upsert_all env [] [] (λ name. refl)

  -- In the result of `dedupeEnv` each name has the entry that stood last in the input, and a name
  -- is missing exactly if the input lacks it.
  pub find-dedupe_env :
      (name : String) (env : List (EnvVar F)) → find name (dedupe_env env) ≡ find_last name env
  unfolding find
  find-dedupe_env name env = rw (dedupe_env-eq-upsert_all, find-upsert_all) (ground arith)

  -- No name stands twice in the result of `dedupeEnv`.
  pub dedupe_env-DistinctNames : (env : List (EnvVar F)) → DistinctNames (dedupe_env env)
  dedupe_env-DistinctNames env = rw dedupe_env-eq-upsert_all (upsert_all-DistinctNames env [] tt)
