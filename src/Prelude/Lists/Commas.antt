-- ===== src/Prelude/Lists/Commas.antt =====
-- A text that joins others with commas, split again.
use Prim.Native.Char.{Char, code}
use Prim.Native.String.{String, [], ◌∷◌, ◌++◌}
use Prim.Native.String.append.{nil, cons}
use mathlib.Core.Path.{◌≡◌, refl, ap, ◌∙◌}
use mathlib.Core.Logic.{inl, inr}
use mathlib.Core.List
use mathlib.Core.Bool.{Bool, true, ◌&&◌, not}
use paperless_ngx_operator.Prelude.Tests.{eqb, Bool-cases, and_left, and_right, if◌then◌else◌}
use paperless_ngx_operator.Prelude.Lists.{join}

-- A character in front of the first part.
abbrev push : Char → List.List String → List.List String
push c List.[] = List.◌∷◌ (c ∷ []) List.[]
push c (List.◌∷◌ part parts) = List.◌∷◌ (c ∷ part) parts

abbrev is_comma : Char → Bool
is_comma c = eqb (code c) 44

-- The parts of a text between its commas.
abbrev pub split_commas : String → List.List String
split_commas [] = List.◌∷◌ [] List.[]
split_commas (c ∷ s) =
    let rest = split_commas s in if is_comma c then List.◌∷◌ [] rest else push c rest

abbrev pub lacks_comma : String → Bool
lacks_comma [] = true
lacks_comma (c ∷ s) = not (is_comma c) && lacks_comma s

abbrev pub all_lack_comma : List.List String → Bool
all_lack_comma List.[] = true
all_lack_comma (List.◌∷◌ s rest) = lacks_comma s && all_lack_comma rest

comma-append : (t : String) → "," ++ t ≡ "," ∷ t
comma-append t = (λ i. cons "," [] t i) ∙ ap (λ s. "," ∷ s) (λ i. nil t i)

split_commas-lacks : (s : String) → lacks_comma s ≡ true → split_commas s ≡ List.◌∷◌ s List.[]
split_commas-lacks [] h = refl
split_commas-lacks (c ∷ s) h = elim (Bool-cases (is_comma c)) [
  | inl is ↦ absurd (cc (rw is at h))
  | inr other ↦ rw (other, split_commas-lacks s (rw other at h)) refl
]

split_commas-append :
    (s t : String)
    → lacks_comma s ≡ true
    → split_commas (s ++ ("," ++ t)) ≡ List.◌∷◌ s (split_commas t)
split_commas-append [] t h = rw (nil ("," ++ t), comma-append t) refl
split_commas-append (c ∷ s) t h = elim (Bool-cases (is_comma c)) [
  | inl is ↦ absurd (cc (rw is at h))
  | inr other ↦ rw (cons c s ("," ++ t), other, split_commas-append s t (rw other at h)) refl
]

-- Texts without commas are what is between the commas of the joined text, if there is one at all.
pub split_commas-join :
    (s : String) (rest : List.List String)
    → all_lack_comma (List.◌∷◌ s rest) ≡ true
    → split_commas (join "," (List.◌∷◌ s rest)) ≡ List.◌∷◌ s rest
unfolding join
split_commas-join s List.[] h = split_commas-lacks s (and_left _ _ h)
split_commas-join s (List.◌∷◌ t rest) h =
    rw
      (
        split_commas-append s (join "," (List.◌∷◌ t rest)) (and_left _ _ h),
        split_commas-join t rest (and_right (lacks_comma s) _ h),
      )
      refl
