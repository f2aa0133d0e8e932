-- ===== src/Resources/Secrets.antt =====
-- internal/resources/secret.go: the generated Secrets.
pub mod RandomKey
pub mod Generated
use Prim.Native.Nat.{bit_and}
use Prim.Native.Char.{Char}
use paperless_ngx_operator.Prelude.{
  ℕ, zero, suc, String, ◌<>◌, ◌||◌, not, Option, none, some, List, [], ◌∷◌, Result, ok, err, plain,
  ◌>>=◌, ◌>>◌, is_some, wrap_error, is_empty, if◌then◌else◌, join,
}
use paperless_ngx_operator.Kube.{Foreign}
use paperless_ngx_operator.Kube.Objects.{Secret}
use paperless_ngx_operator.Api.Types.{PaperlessInstance}
use paperless_ngx_operator.Api.Defaults.{is_enabled}
use paperless_ngx_operator.Resources.Names.{
  common_labels, object_meta, secret_key_name, admin_secret_name,
}

abbrev pub random_key_alphabet : String
random_key_alphabet = "ABCDEFGHIJKLMNOPQRSTUVWXYZabcdefghijklmnopqrstuvwxyz0123456789-_"

abbrev pub secret_key_length : ℕ
secret_key_length = 50

abbrev pub admin_password_length : ℕ
admin_password_length = 32

-- The character of an ASCII text at an index. An index past the end, where Go panics, gives a
-- space, which is not in the alphabet.
unfoldable pub char_at : String → ℕ → Char
char_at String.[] i = " "
char_at (String.◌∷◌ c s) zero = c
char_at (String.◌∷◌ c s) (suc i) = char_at s i

-- `randomKeyAlphabet[b&0x3F]`
unfoldable pub pick : ℕ → Char
unfolding char_at
pick b = char_at random_key_alphabet (bit_and b 0x3F)

-- The loop over the random bytes.
unfoldable pub encode : List ℕ → String
unfolding pick
encode [] = ""
encode (b ∷ raw) = String.◌∷◌ (pick b) (encode raw)

-- `read n` is what `rand.Read` leaves in a buffer of n bytes.
unfoldable pub random_key : (ℕ → Result (List ℕ)) → ℕ → Result String
random_key read n = wrap_error "generating random key" (read n) >>= λ raw. ok (encode raw)

unfoldable pub validate_name : (F : Foreign) → String → Result (Unit {0})
validate_name F name =
    let errs = F.is_dns1123_subdomain name in
    if not (is_empty errs)
    then err (plain ("object name " <> (F.quote name <> (" is invalid: " <> join "; " errs))))
    else ok tt

module _ {F : Foreign} where
  unfoldable pub secret_key :
      (ℕ → Result (List ℕ)) → PaperlessInstance F → Result (Option (Secret F))
  secret_key read inst = elim inst.spec.secret_key_secret_ref [
    | some ref ↦ ok none
    | none ↦ do
      validate_name F (secret_key_name inst)
      key ← wrap_error "generating secret key" (random_key read secret_key_length)
      ok (
          some (record {
            metadata = object_meta inst (secret_key_name inst) (common_labels inst "secret-key");
            string_data = ("PAPERLESS_SECRET_KEY", key) ∷ [];
            contents = [];
          }))
  ]

  unfoldable pub admin_secret :
      (ℕ → Result (List ℕ)) → PaperlessInstance F → Result (Option (Secret F))
  admin_secret read inst =
      if not (is_enabled inst.spec.admin) || is_some inst.spec.admin.password_secret_ref
      then ok none
      else do
        validate_name F (admin_secret_name inst)
        password ← wrap_error "generating admin password" (random_key read admin_password_length)
        ok (
            some (record {
              metadata = object_meta inst (admin_secret_name inst) (common_labels inst "admin");
              string_data = ("username", inst.spec.admin.username) ∷ ("password", password) ∷ [];
              contents = [];
            }))
