-- ===== src/Resources/Secrets/RandomKey.antt =====
-- The generated keys: their length, their alphabet, and that no character is favoured.
use Prim.Native.Char.{Char, code}
use paperless_ngx_operator.Prelude.{
  ℕ, zero, suc, ◌<◌, String, Bool, true, ◌&&◌, List, [], ◌∷◌, Error, Result, ok, err, ◌>>=◌, wrap,
  wrap_error, ◌+◌, ◌∙◌, ◌≡◌, refl, arith, eqb, length, any, All, if◌then◌else◌,
}
use paperless_ngx_operator.Resources.Secrets.{random_key_alphabet, pick, encode, random_key}

-- The characters of a text.
abbrev pub chars : String → List Char
chars String.[] = []
chars (String.◌∷◌ c s) = c ∷ chars s

abbrev pub same_char : Char → Char → Bool
same_char c d = eqb (code c) (code d)

abbrev pub InAlphabet : Char → Type 0
InAlphabet c = any (same_char c) (chars random_key_alphabet) ≡ true

-- A test of every byte below a bound.
passes : (ℕ → Bool) → ℕ → Bool
passes test zero = true
passes test (suc bound) = passes test bound && test bound

passes_sound :
    (test : ℕ → Bool) (bound b : ℕ) → b < bound → passes test bound ≡ true → test b ≡ true
unfolding passes
passes_sound test zero b below passed = absurd (omega arith)
passes_sound test (suc bound) b below passed = ground (arith, passes_sound test bound b)

in_alphabet : ℕ → Bool
in_alphabet b = any (same_char (pick b)) (chars random_key_alphabet)

bytes_pass : passes in_alphabet 256 ≡ true
unfolding passes pick in_alphabet
bytes_pass = refl

pick-InAlphabet : (b : ℕ) → b < 256 → InAlphabet (pick b)
unfolding in_alphabet
pick-InAlphabet b below = passes_sound in_alphabet 256 b below bytes_pass

length-encode : (raw : List ℕ) → length (chars (encode raw)) ≡ length raw
unfolding encode
length-encode [] = refl
length-encode (b ∷ raw) = omega (arith, length-encode raw)

encode-InAlphabet : (raw : List ℕ) → All (λ b. b < 256) raw → All InAlphabet (chars (encode raw))
unfolding encode
encode-InAlphabet [] h = tt
encode-InAlphabet (b ∷ raw) (h, hs) = (pick-InAlphabet b h, encode-InAlphabet raw hs)

-- Inversion of a key's generation.
random_key-eq-ok :
    (r : Result (List ℕ)) (key : String)
    → (wrap_error "generating random key" r >>= λ raw. ok (encode raw)) ≡ ok key
    → (raw : List ℕ) × (r ≡ ok raw) × (encode raw ≡ key)
random_key-eq-ok (ok raw) key h = (raw, refl, cc)
random_key-eq-ok (err e) key h = cc

pub random_key-ok :
    (read : ℕ → Result (List ℕ)) (n : ℕ)
    → ((raw : List ℕ) → read n ≡ ok raw → (length raw ≡ n) × All (λ b. b < 256) raw)
    → (key : String) → random_key read n ≡ ok key
    → (length (chars key) ≡ n) × All InAlphabet (chars key)
unfolding random_key
random_key-ok read n fills key h =
    let (raw, filled, encoded) = random_key-eq-ok (read n) key h in
    rw (← encoded)
      (length-encode raw ∙ (fills raw filled).0, encode-InAlphabet raw (fills raw filled).1)

-- If the source of randomness fills its buffer of n bytes whenever it succeeds, then where it
-- succeeds there is a key, of exactly n characters, all of the alphabet; and where it fails there
-- is none, but its error with the context "generating random key".
pub random_key_lem :
    (read : ℕ → Result (List ℕ)) (n : ℕ)
    → ((raw : List ℕ) → read n ≡ ok raw → (length raw ≡ n) × All (λ b. b < 256) raw)
    → ((raw : List ℕ)
        → read n ≡ ok raw
        → (key : String) × (random_key read n ≡ ok key)
          × (length (chars key) ≡ n)
          × All InAlphabet (chars key))
      × ((e : Error) → read n ≡ err e → random_key read n ≡ err (wrap "generating random key" e))
unfolding random_key
random_key_lem read n fills = (
  λ raw filled. (
    encode raw,
    rw filled refl,
    length-encode raw ∙ (fills raw filled).0,
    encode-InAlphabet raw (fills raw filled).1,
  ),
  λ e failed. rw failed refl,
)

-- How many of the bytes below n select a character.
unfoldable pub hits : ℕ → Char → ℕ
hits zero c = 0
hits (suc n) c = (if same_char (pick n) c then 1 else 0) + hits n c

abbrev all : (Char → Bool) → List Char → Bool
all p [] = true
all p (c ∷ cs) = p c && all p cs

all_sound :
    (n k : ℕ) (cs : List Char) → all (λ c. eqb (hits n c) k) cs ≡ true → All (λ c. hits n c ≡ k) cs
all_sound n k [] h = tt
all_sound n k (c ∷ cs) h = (ground arith, all_sound n k cs (ground arith))

hits_table : all (λ c. eqb (hits 256 c) 4) (chars random_key_alphabet) ≡ true
unfolding hits pick
hits_table = refl

-- Every character of the alphabet is selected by exactly 4 of the 256 values of a byte.
pub pick_uniform : All (λ c. hits 256 c ≡ 4) (chars random_key_alphabet)
pick_uniform = all_sound 256 4 (chars random_key_alphabet) hits_table
