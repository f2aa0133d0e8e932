-- ===== src/Resources/Workload/Environment.antt =====
-- The environment of the Paperless container: what `spec.env` overrides, and what the operator
-- sets where it does not.
use paperless_ngx_operator.Prelude.{
  ℕ, String, ◌==◌, none, some, List, [], ◌∷◌, ◌++◌, Result, ok, ◌≡◌, refl, arith, true, false,
  is_some, lookup, Bool-cases, inl, inr,
}
use paperless_ngx_operator.Kube.{Foreign}
use paperless_ngx_operator.Kube.Objects.{Secret}
use paperless_ngx_operator.Api.Types.{PaperlessInstance}
use paperless_ngx_operator.Api.Defaults.{is_enabled}
use paperless_ngx_operator.Resources.Names.{admin_secret_name}
use paperless_ngx_operator.Resources.Secrets.{secret_key, admin_secret}
use paperless_ngx_operator.Resources.Database.{value_env_var, secret_env_var, database_env}
use paperless_ngx_operator.Resources.Env.Upsert.{
  find, find_last, find_last-append, or_else, DistinctNames,
}
use paperless_ngx_operator.Resources.Env.Dedupe.{find-dedupe_env, dedupe_env-DistinctNames}
use paperless_ngx_operator.Resources.Workload.{
  computed_env, workload_env, secret_key_env, cache_env, admin_env, allowed_hosts, or_default,
}

module _ {F : Foreign} (inst : PaperlessInstance F) where
  -- A name in the container's environment has the user's last entry for it, or else the
  -- operator's, and is missing if neither sets it.
  pub find-workload_env :
      (name : String)
      → find name (workload_env inst)
        ≡ or_else (find_last name inst.spec.env) (find_last name (computed_env inst))
  unfolding workload_env
  find-workload_env name = rw (find-dedupe_env, find_last-append)

  -- No variable stands twice in the container's environment.
  pub workload_env-DistinctNames : DistinctNames (workload_env inst)
  unfolding workload_env
  workload_env-DistinctNames = dedupe_env-DistinctNames (computed_env inst ++ inst.spec.env)

  find_last-database_env-engine :
      find_last "PAPERLESS_DBENGINE" (database_env inst)
      ≡ some (value_env_var "PAPERLESS_DBENGINE" "postgresql")
  unfolding database_env find_last
  find_last-database_env-engine = ground arith

  find_last-computed_env-engine :
      find_last "PAPERLESS_DBENGINE" (computed_env inst)
      ≡ some (value_env_var "PAPERLESS_DBENGINE" "postgresql")
  unfolding computed_env
  find_last-computed_env-engine = simp (find_last-append, find_last-database_env-engine)

  -- Unless the user sets it, the engine is "postgresql", with a managed and with an external
  -- database.
  pub find-workload_env-engine :
      find_last "PAPERLESS_DBENGINE" inst.spec.env ≡ none
      → find "PAPERLESS_DBENGINE" (workload_env inst)
        ≡ some (value_env_var "PAPERLESS_DBENGINE" "postgresql")
  find-workload_env-engine h = rw (find-workload_env, h, find_last-computed_env-engine)

  find_last-database_env-none :
      (name : String)
      → ("PAPERLESS_DBENGINE" == name) ≡ false
      → ("PAPERLESS_DBHOST" == name) ≡ false
      → ("PAPERLESS_DBPORT" == name) ≡ false
      → ("PAPERLESS_DBNAME" == name) ≡ false
      → ("PAPERLESS_DBUSER" == name) ≡ false
      → ("PAPERLESS_DBPASS" == name) ≡ false
      → find_last name (database_env inst) ≡ none
  unfolding database_env find_last
  find_last-database_env-none name a b c d e f = ground arith

  find_last-admin_env-key : find_last "PAPERLESS_SECRET_KEY" (admin_env inst) ≡ none
  unfolding admin_env find_last
  find_last-admin_env-key = ground arith

  name-secret_key_env : (secret_key_env inst).name ≡ "PAPERLESS_SECRET_KEY"
  unfolding secret_key_env
  name-secret_key_env = ground arith

  name-cache_env : (cache_env inst).name ≡ "PAPERLESS_REDIS"
  unfolding cache_env
  name-cache_env = ground arith

  find_last-secret_key_env :
      find_last "PAPERLESS_SECRET_KEY" (secret_key_env inst ∷ cache_env inst ∷ [])
      ≡ some (secret_key_env inst)
  unfolding find_last
  find_last-secret_key_env = rw (name-secret_key_env, name-cache_env)

  find_last-computed_env-key :
      find_last "PAPERLESS_SECRET_KEY" (computed_env inst) ≡ some (secret_key_env inst)
  unfolding computed_env
  find_last-computed_env-key = simp (
    find_last-append,
    find_last-database_env-none "PAPERLESS_SECRET_KEY" refl refl refl refl refl refl,
    find_last-admin_env-key,
    find_last-secret_key_env,
  )

  find_last-admin_env-hosts : find_last "PAPERLESS_ALLOWED_HOSTS" (admin_env inst) ≡ none
  unfolding admin_env find_last
  find_last-admin_env-hosts = ground arith

  find_last-secret_key_env-hosts :
      find_last "PAPERLESS_ALLOWED_HOSTS" (secret_key_env inst ∷ cache_env inst ∷ []) ≡ none
  unfolding find_last
  find_last-secret_key_env-hosts = rw (name-secret_key_env, name-cache_env)

  find_last-computed_env-hosts :
      find_last "PAPERLESS_ALLOWED_HOSTS" (computed_env inst)
      ≡ some (value_env_var "PAPERLESS_ALLOWED_HOSTS" (allowed_hosts inst))
  unfolding computed_env find_last allowed_hosts
  find_last-computed_env-hosts = elim (Bool-cases (inst.spec.url == "")) [
    | inl missing ↦ simp (
      missing,
      find_last-append,
      find_last-database_env-none "PAPERLESS_ALLOWED_HOSTS" refl refl refl refl refl refl,
      find_last-admin_env-hosts,
      find_last-secret_key_env-hosts,
    )
    | inr given ↦ simp (
      given,
      find_last-append,
      find_last-database_env-none "PAPERLESS_ALLOWED_HOSTS" refl refl refl refl refl refl,
      find_last-admin_env-hosts,
      find_last-secret_key_env-hosts,
    )
  ]

  -- Unless the user sets them, the allowed hosts are those that the operator computes.
  pub find-workload_env-hosts :
      find_last "PAPERLESS_ALLOWED_HOSTS" inst.spec.env ≡ none
      → find "PAPERLESS_ALLOWED_HOSTS" (workload_env inst)
        ≡ some (value_env_var "PAPERLESS_ALLOWED_HOSTS" (allowed_hosts inst))
  find-workload_env-hosts h = rw (find-workload_env, h, find_last-computed_env-hosts)

  find_last-admin_env-password :
      is_enabled inst.spec.admin ≡ true
      → inst.spec.admin.password_secret_ref ≡ none
      → find_last "PAPERLESS_ADMIN_PASSWORD" (admin_env inst)
        ≡ some (secret_env_var "PAPERLESS_ADMIN_PASSWORD" (admin_secret_name inst) "password")
  unfolding admin_env find_last
  find_last-admin_env-password enabled generated = simp (enabled, generated) (ground arith)

  find_last-computed_env-password :
      is_enabled inst.spec.admin ≡ true
      → inst.spec.admin.password_secret_ref ≡ none
      → find_last "PAPERLESS_ADMIN_PASSWORD" (computed_env inst)
        ≡ some (secret_env_var "PAPERLESS_ADMIN_PASSWORD" (admin_secret_name inst) "password")
  unfolding computed_env
  find_last-computed_env-password enabled generated = simp (
    find_last-append,
    find_last-database_env-none "PAPERLESS_ADMIN_PASSWORD" refl refl refl refl refl refl,
    find_last-admin_env-password enabled generated,
  )

  -- A Secret that is built for Django's key is the one that the operator's environment refers to,
  -- at a key that it holds.
  pub secret_key-find_last :
      (read : ℕ → Result (List ℕ)) (s : Secret F)
      → secret_key read inst ≡ ok (some s)
      → (find_last "PAPERLESS_SECRET_KEY" (computed_env inst)
          ≡ some (secret_env_var "PAPERLESS_SECRET_KEY" s.metadata.name "PAPERLESS_SECRET_KEY"))
        × (is_some (lookup "PAPERLESS_SECRET_KEY" s.string_data) ≡ true)
  unfolding secret_key secret_key_env lookup
  secret_key-find_last read s h = (rw find_last-computed_env-key (ground arith), ground arith)

  -- A Secret that is built for the administrator is the one that the operator's environment takes
  -- the password from, at a key that it holds.
  pub admin_secret-find_last :
      (read : ℕ → Result (List ℕ)) (s : Secret F)
      → admin_secret read inst ≡ ok (some s)
      → (find_last "PAPERLESS_ADMIN_PASSWORD" (computed_env inst)
          ≡ some (secret_env_var "PAPERLESS_ADMIN_PASSWORD" s.metadata.name "password"))
        × (is_some (lookup "password" s.string_data) ≡ true)
  unfolding admin_secret lookup
  admin_secret-find_last read s h =
      let enabled : is_enabled inst.spec.admin ≡ true = ground arith in
      let generated : inst.spec.admin.password_secret_ref ≡ none = ground arith in
      (rw (find_last-computed_env-password enabled generated) (ground arith), ground arith)

  find_last-admin_env-user :
      is_enabled inst.spec.admin ≡ true
      → find_last "PAPERLESS_ADMIN_USER" (admin_env inst)
        ≡ some (value_env_var "PAPERLESS_ADMIN_USER" (or_default inst.spec.admin.username "admin"))
  unfolding admin_env find_last
  find_last-admin_env-user enabled = simp enabled (ground arith)

  find_last-computed_env-user :
      is_enabled inst.spec.admin ≡ true
      → find_last "PAPERLESS_ADMIN_USER" (computed_env inst)
        ≡ some (value_env_var "PAPERLESS_ADMIN_USER" (or_default inst.spec.admin.username "admin"))
  unfolding computed_env
  find_last-computed_env-user enabled = simp (
    find_last-append,
    find_last-database_env-none "PAPERLESS_ADMIN_USER" refl refl refl refl refl refl,
    find_last-admin_env-user enabled,
  )

  -- With an empty username in the spec, a generated Secret of the administrator holds an empty
  -- username, while the environment that the operator computes names the user "admin".
  pub admin_secret-username_differs :
      (read : ℕ → Result (List ℕ)) (s : Secret F)
      → admin_secret read inst ≡ ok (some s)
      → inst.spec.admin.username ≡ ""
      → (lookup "username" s.string_data ≡ some "")
        × (find_last "PAPERLESS_ADMIN_USER" (computed_env inst)
            ≡ some (value_env_var "PAPERLESS_ADMIN_USER" "admin"))
  unfolding admin_secret lookup
  admin_secret-username_differs read s h empty =
      let enabled : is_enabled inst.spec.admin ≡ true = ground arith in
      (ground arith, rw (find_last-computed_env-user enabled) (simp empty))
