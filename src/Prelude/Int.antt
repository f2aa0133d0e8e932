-- ===== src/Prelude/Int.antt =====
-- Signed integers (`int32`, `int64`), and `strconv.Itoa`.
pub mod Decimal
use native.Mathlib.Omega.{arith}
use mathlib.Core.Logic.{inl, inr}
use Prim.Native.Nat.{ℕ, zero, suc, ◌≤◌, ◌<◌, ◌/◌, ◌%◌}
use Prim.Native.Char.{Char}
use Prim.Native.String.{String, [], ◌∷◌, ◌++◌}
use mathlib.Core.Path.{◌≡◌, refl}
use mathlib.Core.Bool.{Bool, true, false}
use paperless_ngx_operator.Prelude.Tests.{ltb, Bool-cases, if◌then◌else◌}

-- `negsuc n` is -(n + 1).
pub data ℤ : Type 0 where
  pos : ℕ → ℤ
  negsuc : ℕ → ℤ

-- `z < 1`
abbrev pub less_than_one : ℤ → Bool
less_than_one (pos zero) = true
less_than_one (pos (suc n)) = false
less_than_one (negsuc n) = true

-- The character of a decimal digit.
unfoldable pub digit : ℕ → Char
digit zero = "0"
digit (suc zero) = "1"
digit (suc (suc zero)) = "2"
digit (suc (suc (suc zero))) = "3"
digit (suc (suc (suc (suc zero)))) = "4"
digit (suc (suc (suc (suc (suc zero))))) = "5"
digit (suc (suc (suc (suc (suc (suc zero)))))) = "6"
digit (suc (suc (suc (suc (suc (suc (suc zero))))))) = "7"
digit (suc (suc (suc (suc (suc (suc (suc (suc zero)))))))) = "8"
digit (suc (suc (suc (suc (suc (suc (suc (suc (suc n))))))))) = "9"

-- The digits of a number in front of a text, on fuel: a round for each digit, of which `suc n`
-- are taken for `n`.
unfoldable pub show_from : ℕ → ℕ → String → String
unfolding digit
show_from zero n acc = acc
show_from (suc f) n acc =
    let rest = show_from f (n / 10) (digit (n % 10) ∷ acc) in
    if ltb n 10 then digit n ∷ acc else rest

unfoldable pub show : ℕ → String
unfolding show_from
show n = show_from (suc n) n []

-- `strconv.Itoa`
unfoldable pub itoa : ℤ → String
unfolding show
itoa (pos n) = show n
itoa (negsuc n) = "-" ++ show (suc n)

itoa_test : itoa (pos 5432) ≡ "5432"
unfolding itoa
itoa_test = refl

-- More rounds than a number's value change nothing, so `show` is never cut short.
show_from-fuel : (f g n : ℕ) (acc : String) → n < f → n < g → show_from f n acc ≡ show_from g n acc
unfolding show_from
show_from-fuel zero g n acc p q = absurd (omega arith)
show_from-fuel (suc f) zero n acc p q = absurd (omega arith)
show_from-fuel (suc f) (suc g) n acc p q = elim (Bool-cases (ltb n 10)) [
  | inl last ↦ rw last refl
  | inr more ↦
      let big : 10 ≤ n = ground arith in
      rw more (show_from-fuel f g (n / 10) _ (omega (arith, big)) (omega (arith, big)))
]
