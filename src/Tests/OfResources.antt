-- ===== src/Tests/OfResources.antt =====
-- The theorems of `Api` and `Resources` at concrete inputs.
use paperless_ngx_operator.Prelude.{
  ℕ, zero, suc, ◌<◌, true, String, some, List, [], ◌∷◌, ok, ◌≡◌, refl, arith, length, lookup,
  is_empty, is_some, All, err, Error, wrap,
}
use paperless_ngx_operator.Kube.Objects.{Secret, PersistentVolumeClaim, EnvVar}
use paperless_ngx_operator.Api.Defaults.{is_enabled}
use paperless_ngx_operator.Resources.Names.{derived_name, common_labels, object_meta}
use paperless_ngx_operator.Resources.Storage.{pvcs}
use paperless_ngx_operator.Resources.Storage.Claims.{ArePositive, IsAcceptable, pvcs-IsAcceptable}
use paperless_ngx_operator.Resources.Secrets.{
  secret_key, admin_secret, random_key, validate_name, encode,
}
use paperless_ngx_operator.Resources.Secrets.RandomKey.{chars, InAlphabet, random_key_lem}
use paperless_ngx_operator.Resources.Secrets.Generated.{
  Fills, IsKey, secret_key_lem, admin_secret_lem,
}
use paperless_ngx_operator.Resources.Cache.{valkey_pvc}
use paperless_ngx_operator.Resources.Database.{value_env_var, secret_env_var}
use paperless_ngx_operator.Resources.Env.{dedupe_env}
use paperless_ngx_operator.Resources.Env.Upsert.{find, find_last, DistinctNames, or_else}
use paperless_ngx_operator.Resources.Env.Dedupe.{find-dedupe_env, dedupe_env-DistinctNames}
use paperless_ngx_operator.Resources.Workload.{workload_env, computed_env}
use paperless_ngx_operator.Resources.Workload.Environment.{
  find-workload_env, secret_key-find_last, admin_secret-username_differs,
}
use paperless_ngx_operator.Resources.Env.Order.{names_of, first_names, dedupe_env-first_names}
use paperless_ngx_operator.Tests.Fixtures.{foreign, variable, bytes, deleted, random}

abbrev names : List (EnvVar foreign)
names = variable "A" "1" ∷ variable "B" "2" ∷ variable "A" "3" ∷ []

find-dedupe_env_example : find "A" (dedupe_env names) ≡ some (variable "A" "3")
unfolding find_last
find-dedupe_env_example = find-dedupe_env "A" names

dedupe_env-DistinctNames_example : DistinctNames (dedupe_env names)
dedupe_env-DistinctNames_example = dedupe_env-DistinctNames names

-- The input's order, with the last value of each name.
dedupe_env_test : dedupe_env names ≡ variable "A" "3" ∷ variable "B" "2" ∷ []
unfolding dedupe_env
dedupe_env_test = refl

find-workload_env_example :
    find "PAPERLESS_URL" (workload_env deleted)
    ≡ or_else
        (find_last "PAPERLESS_URL" deleted.spec.env)
        (find_last "PAPERLESS_URL" (computed_env deleted))
find-workload_env_example = find-workload_env deleted "PAPERLESS_URL"

positive : ArePositive foreign
positive = record { five = refl; ten = refl; twenty = refl; one = refl }

pvcs-IsAcceptable_example :
    All IsAcceptable (pvcs deleted)
    × ((p : PersistentVolumeClaim foreign) → valkey_pvc deleted ≡ some p → IsAcceptable p)
pvcs-IsAcceptable_example = pvcs-IsAcceptable positive deleted

bytes-lem : (n : ℕ) → (length (bytes n) ≡ n) × All (λ b. b < 256) (bytes n)
bytes-lem zero = (refl, tt)
bytes-lem (suc n) = (omega (arith, (bytes-lem n).0), (omega arith, (bytes-lem n).1))

random-Fills : Fills random
random-Fills n raw h = let filled : bytes n ≡ raw = cc in rw (← filled) (bytes-lem n)

random_key_lem_example :
    ((raw : List ℕ)
      → random 4 ≡ ok raw
      → (key : String) × (random_key random 4 ≡ ok key)
        × (length (chars key) ≡ 4)
        × All InAlphabet (chars key))
    × ((e : Error) → random 4 ≡ err e → random_key random 4 ≡ err (wrap "generating random key" e))
random_key_lem_example = random_key_lem random 4 (random-Fills 4)

-- The Secrets that are generated for the instance.
abbrev key_secret : Secret foreign
key_secret = record {
  metadata = object_meta deleted "p-secret-key" (common_labels deleted "secret-key");
  string_data = ("PAPERLESS_SECRET_KEY", encode (bytes 50)) ∷ [];
  contents = [];
}

abbrev user_secret : Secret foreign
user_secret = record {
  metadata = object_meta deleted "p-admin" (common_labels deleted "admin");
  string_data = ("username", "") ∷ ("password", encode (bytes 32)) ∷ [];
  contents = [];
}

key_built : secret_key random deleted ≡ ok (some key_secret)
unfolding secret_key validate_name derived_name random_key
key_built = refl

user_built : admin_secret random deleted ≡ ok (some user_secret)
unfolding admin_secret is_enabled validate_name derived_name random_key
user_built = refl

secret_key_lem_example :
    (key : String) × (is_empty (foreign.is_dns1123_subdomain "p-secret-key") ≡ true)
    × (lookup "PAPERLESS_SECRET_KEY" key_secret.string_data ≡ some key)
    × IsKey 50 key
secret_key_lem_example = secret_key_lem random deleted random-Fills key_secret key_built

admin_secret_lem_example :
    (password : String) × (is_empty (foreign.is_dns1123_subdomain "p-admin") ≡ true)
    × (lookup "password" user_secret.string_data ≡ some password)
    × IsKey 32 password
admin_secret_lem_example = admin_secret_lem random deleted random-Fills user_secret user_built

secret_key-find_last_example :
    (find_last "PAPERLESS_SECRET_KEY" (computed_env deleted)
      ≡ some (secret_env_var "PAPERLESS_SECRET_KEY" "p-secret-key" "PAPERLESS_SECRET_KEY"))
    × (is_some (lookup "PAPERLESS_SECRET_KEY" key_secret.string_data) ≡ true)
secret_key-find_last_example = secret_key-find_last deleted random key_secret key_built

admin_secret-username_differs_example :
    (lookup "username" user_secret.string_data ≡ some "")
    × (find_last "PAPERLESS_ADMIN_USER" (computed_env deleted)
        ≡ some (value_env_var "PAPERLESS_ADMIN_USER" "admin"))
admin_secret-username_differs_example =
    admin_secret-username_differs deleted random user_secret user_built refl

dedupe_env-first_names_example : names_of (dedupe_env names) ≡ "A" ∷ "B" ∷ []
unfolding first_names
dedupe_env-first_names_example = dedupe_env-first_names names
