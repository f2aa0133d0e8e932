-- ===== src/Resources/Names/Distinct.antt =====
-- Which of the derived names can be equal.
use text.Mathlib.TextLemmas.{
  append_cancel_left, append_cancel_right, append_assoc, append-nil, cons-ne-nil, append-eq-nil_iff,
}
use paperless_ngx_operator.Prelude.{
  String, ◌<>◌, ◌==◌, List, [], ◌∷◌, ◌≡◌, ◌≢◌, ◌↔◌, false, sym, ◌∙◌, arith, eq_iff, All,
}
use paperless_ngx_operator.Kube.{Foreign}
use paperless_ngx_operator.Api.Types.{PaperlessInstance}
use paperless_ngx_operator.Resources.Names.{derived_name}

-- No two entries of a list are equal.
abbrev pub Distinct {ℓ} : {A : Type ℓ} → List A → Type ℓ
Distinct [] = Unit
Distinct (x ∷ xs) = All (λ y. x ≢ y) xs × Distinct xs

module _ {F : Foreign} where
  pub derived_name-suffix :
      (i : PaperlessInstance F) (s t : String)
      → (s == t) ≡ false
      → derived_name i s ≢ derived_name i t
  unfolding derived_name
  derived_name-suffix i s t ne e = ground (arith, eq_iff s t, append_cancel_left _ _ _ e)

  pub name-ne-derived_name : (i : PaperlessInstance F) (s : String) → i.name ≢ derived_name i s
  unfolding derived_name
  name-ne-derived_name i s e =
      cons-ne-nil _ _
        (append-eq-nil_iff.0 (
          sym (
            append_cancel_left i.name "" ("-" <> s)
              (append-nil i.name ∙ e ∙ append_assoc i.name "-" s)))).0

  -- Two instances share a derived name of one kind exactly if they share their own.
  pub derived_name-eq_iff :
      (i j : PaperlessInstance F) (s : String)
      → (derived_name i s ≡ derived_name j s) ↔ (i.name ≡ j.name)
  unfolding derived_name
  derived_name-eq_iff i j s =
      (λ e. append_cancel_right _ _ _ (append_cancel_right _ _ _ e), λ e. rw e)
