-- ===== src/Resources/Secrets/Generated.antt =====
-- When the Secrets are generated, and what they hold.
use paperless_ngx_operator.Prelude.{
  ℕ, ◌<◌, String, true, false, ◌&&◌, not, none, some, List, Result, ok, ◌≡◌, ◌↔◌, arith, length,
  All, is_some, is_empty, lookup, Result-cases, inl, inr,
}
use paperless_ngx_operator.Kube.{Foreign}
use paperless_ngx_operator.Kube.Objects.{Secret}
use paperless_ngx_operator.Api.Types.{PaperlessInstance}
use paperless_ngx_operator.Api.Defaults.{is_enabled}
use paperless_ngx_operator.Resources.Names.{secret_key_name, admin_secret_name}
use paperless_ngx_operator.Resources.Secrets.{
  secret_key, admin_secret, validate_name, random_key, secret_key_length, admin_password_length,
}
use paperless_ngx_operator.Resources.Secrets.RandomKey.{chars, InAlphabet, random_key-ok}

-- A source of randomness that fills its buffer with bytes, if it does not fail.
abbrev pub Fills : (ℕ → Result (List ℕ)) → Type 0
Fills read = (n : ℕ) (raw : List ℕ) → read n ≡ ok raw → (length raw ≡ n) × All (λ b. b < 256) raw

-- A generated value: so many characters, all of the alphabet.
abbrev pub IsKey : ℕ → String → Type 0
IsKey n key = (length (chars key) ≡ n) × All InAlphabet (chars key)

module _ {F : Foreign} (read : ℕ → Result (List ℕ)) (inst : PaperlessInstance F) where
  -- No Secret for Django's key is built, without an error, exactly if the user names one; none
  -- for the administrator, exactly if the account is disabled or the user names one.
  pub generated-none_iff :
      ((secret_key read inst ≡ ok none) ↔ (is_some inst.spec.secret_key_secret_ref ≡ true))
      × ((admin_secret read inst ≡ ok none) ↔ (
          (is_enabled inst.spec.admin && not (is_some inst.spec.admin.password_secret_ref))
          ≡ false))
  unfolding secret_key admin_secret validate_name random_key
  generated-none_iff = (ground arith, ground arith)

  secret_key-parts :
      (s : Secret F)
      → secret_key read inst ≡ ok (some s)
      → (key : String) × (validate_name F (secret_key_name inst) ≡ ok tt)
        × (random_key read secret_key_length ≡ ok key)
        × (s.metadata.name ≡ secret_key_name inst)
        × (lookup "PAPERLESS_SECRET_KEY" s.string_data ≡ some key)
  unfolding secret_key lookup
  secret_key-parts s h = elim (Result-cases (random_key read secret_key_length)) [
    | inl (key, made) ↦ (key, ground arith, made, ground arith, ground arith)
    | inr (e, failed) ↦ absurd (ground arith)
  ]

  admin_secret-parts :
      (s : Secret F)
      → admin_secret read inst ≡ ok (some s)
      → (password : String) × (validate_name F (admin_secret_name inst) ≡ ok tt)
        × (random_key read admin_password_length ≡ ok password)
        × (s.metadata.name ≡ admin_secret_name inst)
        × (lookup "password" s.string_data ≡ some password)
  unfolding admin_secret lookup
  admin_secret-parts s h = elim (Result-cases (random_key read admin_password_length)) [
    | inl (password, made) ↦ (password, ground arith, made, ground arith, ground arith)
    | inr (e, failed) ↦ absurd (ground arith)
  ]

  validate_name-eq-ok :
      (name : String) → validate_name F name ≡ ok tt → is_empty (F.is_dns1123_subdomain name) ≡ true
  unfolding validate_name
  validate_name-eq-ok name h = ground arith

  -- If the source of randomness fills its buffers, a built Secret for Django's key has a valid
  -- name and 50 characters of the alphabet as its key.
  pub secret_key_lem :
      Fills read
      → (s : Secret F) → secret_key read inst ≡ ok (some s)
      → (key : String) × (is_empty (F.is_dns1123_subdomain s.metadata.name) ≡ true)
        × (lookup "PAPERLESS_SECRET_KEY" s.string_data ≡ some key)
        × IsKey 50 key
  secret_key_lem fills s h =
      let (key, valid, made, named, held) = secret_key-parts s h in
      (key, rw named (validate_name-eq-ok _ valid), held, random_key-ok read 50 (fills 50) key made)

  -- If the source of randomness fills its buffers, a built Secret for the administrator has a
  -- valid name and a password of 32 characters of the alphabet.
  pub admin_secret_lem :
      Fills read
      → (s : Secret F) → admin_secret read inst ≡ ok (some s)
      → (password : String) × (is_empty (F.is_dns1123_subdomain s.metadata.name) ≡ true)
        × (lookup "password" s.string_data ≡ some password)
        × IsKey 32 password
  admin_secret_lem fills s h =
      let (password, valid, made, named, held) = admin_secret-parts s h in
      (
        password,
        rw named (validate_name-eq-ok _ valid),
        held,
        random_key-ok read 32 (fills 32) password made,
      )
