-- ===== src/Prelude/Int/Decimal.antt =====
-- Decimal text read back.
use native.Mathlib.Omega.{arith}
use mathlib.Core.Logic.{inl, inr}
use Prim.Native.Nat.{ℕ, zero, suc, ◌+◌, ◌*◌, ◌-◌, ◌/◌, ◌%◌, ◌≤◌, ◌<◌}
use Prim.Native.Char.{code}
use Prim.Native.String.{String, [], ◌∷◌}
use mathlib.Core.Path.{◌≡◌, refl, ◌∙◌, ap}
use paperless_ngx_operator.Prelude.Tests.{ltb, Bool-cases}
use paperless_ngx_operator.Prelude.Int.{digit, show_from, show}

-- The number whose digits a text has, after those of `n`.
abbrev pub value_from : ℕ → String → ℕ
value_from n [] = n
value_from n (c ∷ s) = value_from (10 * n + (code c - 48)) s

abbrev pub decimal_value : String → ℕ
decimal_value = value_from 0

code-digit : (n : ℕ) → n < 10 → code (digit n) - 48 ≡ n
unfolding digit
code-digit zero h = refl
code-digit (suc zero) h = refl
code-digit (suc (suc zero)) h = refl
code-digit (suc (suc (suc zero))) h = refl
code-digit (suc (suc (suc (suc zero)))) h = refl
code-digit (suc (suc (suc (suc (suc zero))))) h = refl
code-digit (suc (suc (suc (suc (suc (suc zero)))))) h = refl
code-digit (suc (suc (suc (suc (suc (suc (suc zero))))))) h = refl
code-digit (suc (suc (suc (suc (suc (suc (suc (suc zero)))))))) h = refl
code-digit (suc (suc (suc (suc (suc (suc (suc (suc (suc n))))))))) h = omega arith

value_from-show_from :
    (f n : ℕ) (s : String) → n < f → value_from 0 (show_from f n s) ≡ value_from n s
unfolding show_from
value_from-show_from zero n s h = absurd (omega arith)
value_from-show_from (suc f) n s h = elim (Bool-cases (ltb n 10)) [
  | inl last ↦ rw last (ap (λ k. value_from k s) (omega (arith, code-digit n (ground arith))))
  | inr more ↦
      let big : 10 ≤ n = ground arith in
      rw more (
        value_from-show_from f (n / 10) (digit (n % 10) ∷ s) (omega (arith, big))
        ∙ ap (λ k. value_from k s) (omega (arith, code-digit (n % 10) (omega arith))))
]

-- What is shown of a number is read as the number.
pub decimal_value-show : (n : ℕ) → decimal_value (show n) ≡ n
unfolding show
decimal_value-show n = value_from-show_from (suc n) n [] (omega arith)
