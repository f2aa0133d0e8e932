-- ===== src/Resources/Env.antt =====
-- `dedupeEnv` of internal/resources/workload.go.
pub mod Upsert
pub mod Dedupe
pub mod Order
use paperless_ngx_operator.Prelude.{ℕ, String, none, some, List, [], ◌∷◌, ◌++◌, length, set, lookup}
use paperless_ngx_operator.Kube.{Foreign}
use paperless_ngx_operator.Kube.Objects.{EnvVar}

-- The map `index`, newest entry first.
abbrev pub Index : Type 0
Index = List (String × ℕ)

module _ {F : Foreign} where
  -- The loop over `env`, with the map `index` and the slice `out`.
  unfoldable pub dedupe_loop : List (EnvVar F) → Index → List (EnvVar F) → List (EnvVar F)
  dedupe_loop [] index out = out
  dedupe_loop (e ∷ env) index out = elim (lookup e.name index) [
    | some i ↦ dedupe_loop env index (set out i e)
    | none ↦ dedupe_loop env ((e.name, length out) ∷ index) (out ++ (e ∷ []))
  ]

  unfoldable pub dedupe_env : List (EnvVar F) → List (EnvVar F)
  unfolding dedupe_loop lookup
  dedupe_env env = dedupe_loop env [] []
