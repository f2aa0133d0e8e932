-- ===== src/Controller/Inversion.antt =====
-- What the success of a composed action says of its parts.
use paperless_ngx_operator.Prelude.{String, ◌∷◌, Result, ok, err, ◌≡◌, refl, wrap_error-eq-ok}
use paperless_ngx_operator.Kube.{Foreign}
use paperless_ngx_operator.Controller.Client.{
  Request, History, State, M, lift, wrapping, call, continue, ◌>>=◌,
}

module _ {F : Foreign} {A B : Type 0} where
  continue-eq-ok :
      (r : Result A) (f : A → M F B) (t : State F) (b : B)
      → (continue r f t).0 ≡ ok b
      → (a : A) × (r ≡ ok a) × ((f a t).0 ≡ ok b) × ((continue r f t).1 ≡ (f a t).1)
  continue-eq-ok (ok a) f t b h = (a, refl, h, refl)
  continue-eq-ok (err e) f t b h = cc

  pub bind-eq-ok :
      (m : M F A) (f : A → M F B) (s : State F) (b : B)
      → ((m >>= f) s).0 ≡ ok b
      → (a : A) × ((m s).0 ≡ ok a) × ((f a (m s).1).0 ≡ ok b) × (((m >>= f) s).1 ≡ (f a (m s).1).1)
  unfolding ◌>>=◌
  bind-eq-ok m f s b h = continue-eq-ok (m s).0 f (m s).1 b h

  -- A chain that begins with a pure computation.
  pub bind-lift-eq-ok :
      (r : Result A) (f : A → M F B) (s : State F) (b : B)
      → ((lift r >>= f) s).0 ≡ ok b
      → (a : A) × (r ≡ ok a) × ((f a s).0 ≡ ok b) × (((lift r >>= f) s).1 ≡ (f a s).1)
  unfolding ◌>>=◌
  bind-lift-eq-ok r f s b h = continue-eq-ok r f s b h

module _ {F : Foreign} {A : Type 0} where
  pub wrapping-eq-ok :
      (prefix : String) (m : M F A) (s : State F) (a : A)
      → (wrapping prefix m s).0 ≡ ok a
      → ((m s).0 ≡ ok a) × ((wrapping prefix m s).1 ≡ (m s).1)
  unfolding ◌>>=◌
  wrapping-eq-ok prefix m s a h = (wrap_error-eq-ok _ _ h, refl)

  pub call-eq-ok :
      (answer : History F → Result A) (q : Request F) (s : State F) (a : A)
      → (call answer q s).0 ≡ ok a
      → (answer s.history ≡ ok a) × ((call answer q s).1 ≡ record s { history = q ∷ s.history })
  unfolding ◌>>=◌
  call-eq-ok answer q s a h = (h, refl)
