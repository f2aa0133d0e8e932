-- ===== src/Resources/Env/Order.antt =====
-- The order of the entries that `dedupeEnv` leaves (internal/resources/workload.go).
use mathlib.Core.List.{append_assoc, append-nil}
use paperless_ngx_operator.Prelude.{
  String, ◌==◌, Bool, List, [], ◌∷◌, ◌++◌, map, ◌≡◌, refl, sym, arith, any, Bool-cases, inl, inr,
  if◌then◌else◌, eq_iff,
}
use paperless_ngx_operator.Kube.{Foreign}
use paperless_ngx_operator.Kube.Objects.{EnvVar}
use paperless_ngx_operator.Resources.Env.{dedupe_env}
use paperless_ngx_operator.Resources.Env.Upsert.{upsert, upsert_all}
use paperless_ngx_operator.Resources.Env.Dedupe.{dedupe_env-eq-upsert_all}

-- Whether a name is among those seen.
abbrev pub seen_before : String → List String → Bool
seen_before name seen = any (λ s. s == name) seen

-- The names of a list that were not seen before it, each where it first appears.
unfoldable pub first_names : List String → List String → List String
first_names [] seen = []
first_names (name ∷ names) seen =
    let known = first_names names seen in
    let fresh = first_names names (seen ++ (name ∷ [])) in
    if seen_before name seen then known else name ∷ fresh

module _ {F : Foreign} where
  abbrev pub names_of : List (EnvVar F) → List String
  names_of env = map (λ e. e.name) env

  names_of-upsert :
      (e : EnvVar F) (out : List (EnvVar F))
      → names_of (upsert e out) ≡ (
          if seen_before e.name (names_of out) then names_of out else names_of out ++ (e.name ∷ []))
  unfolding upsert
  names_of-upsert e [] = refl
  names_of-upsert e (x ∷ out) = ground (arith, eq_iff x.name e.name, names_of-upsert e out)

  names_of-upsert_all :
      (env out : List (EnvVar F))
      → names_of (upsert_all env out) ≡ names_of out ++ first_names (names_of env) (names_of out)
  unfolding upsert_all first_names
  names_of-upsert_all [] out = sym (append-nil (names_of out))
  names_of-upsert_all (e ∷ env) out = elim (Bool-cases (seen_before e.name (names_of out))) [
    | inl known ↦ rw (names_of-upsert_all env (upsert e out), names_of-upsert, known) refl
    | inr fresh ↦
        rw (names_of-upsert_all env (upsert e out), names_of-upsert, fresh)
          (append_assoc (names_of out) (e.name ∷ []) _)
  ]

  -- The names in the result of `dedupeEnv` are those of the input, each once and in the order of
  -- their first appearance.
  pub dedupe_env-first_names :
      (env : List (EnvVar F)) → names_of (dedupe_env env) ≡ first_names (names_of env) []
  dedupe_env-first_names env = rw dedupe_env-eq-upsert_all (names_of-upsert_all env [])
