-- ===== src/Controller/Cost.antt =====
-- How many requests an action makes at most, whatever the API server answers
-- (internal/controller/paperlessinstance_controller.go, internal/controller/deletion_policy.go).
pub mod Steps
pub mod Whole
use paperless_ngx_operator.Prelude.{
  ℕ, ◌+◌, ◌≤◌, Bool, true, false, String, ◌∷◌, Error, Result, ok, err, arith, length, if◌then◌else◌,
}
use paperless_ngx_operator.Kube.{Foreign}
use paperless_ngx_operator.Api.Types.{PaperlessInstance}
use paperless_ngx_operator.Controller.Client.{
  Request, History, State, M, pure, raise, lift, gets, modify, wrapping, call, attempt, continue,
  ◌>>=◌,
}

-- Every run of the action makes at most `k` requests.
pub record Asks {F : Foreign} {A : Type 0} (k : ℕ) (m : M F A) : Type 0 where
  pub at : (s : State F) → length (m s).1.history ≤ k + length s.history

module _ {F : Foreign} {A : Type 0} where
  pub Asks-pure : (a : A) → Asks {F = F} 0 (pure a)
  unfolding ◌>>=◌
  Asks-pure a = record { at = λ s. omega arith }

  pub Asks-raise : (e : Error) → Asks {F = F} {A = A} 0 (raise e)
  unfolding ◌>>=◌
  Asks-raise e = record { at = λ s. omega arith }

  pub Asks-lift : (r : Result A) → Asks {F = F} 0 (lift r)
  unfolding ◌>>=◌
  Asks-lift r = record { at = λ s. omega arith }

  pub Asks-gets : (f : State F → A) → Asks 0 (gets f)
  unfolding ◌>>=◌
  Asks-gets f = record { at = λ s. omega arith }

  pub Asks-call : (answer : History F → Result A) (q : Request F) → Asks 1 (call answer q)
  unfolding ◌>>=◌
  Asks-call answer q = record { at = λ s. omega arith }

module _ {F : Foreign} {A : Type 0} {k : ℕ} where
  pub Asks-wrapping : (prefix : String) (m : M F A) → Asks k m → Asks k (wrapping prefix m)
  unfolding ◌>>=◌
  Asks-wrapping prefix m a = record { at = a.at }

  pub Asks-attempt : (m : M F A) → Asks k m → Asks k (attempt m)
  unfolding ◌>>=◌
  Asks-attempt m a = record { at = a.at }

  pub Asks-mono : {l : ℕ} (m : M F A) → l ≤ k → Asks l m → Asks k m
  Asks-mono m le a = record { at = λ s. omega (arith, le, a.at s) }

  pub Asks-if :
      (test : Bool) (this other : M F A)
      → Asks k this
      → Asks k other
      → Asks k (if test then this else other)
  Asks-if true this other a b = a
  Asks-if false this other a b = b

module _ {F : Foreign} where
  pub Asks-modify : (f : PaperlessInstance F → PaperlessInstance F) → Asks 0 (modify f)
  unfolding ◌>>=◌
  Asks-modify f = record { at = λ s. omega arith }

module _ {F : Foreign} {A B : Type 0} where
  Asks-continue :
      {k : ℕ} (r : Result A) (f : A → M F B) (s : State F)
      → ((a : A) → Asks k (f a))
      → length (continue r f s).1.history ≤ k + length s.history
  Asks-continue (ok a) f s b = (b a).at s
  Asks-continue (err e) f s b = omega arith

  pub Asks-bind :
      {k l : ℕ} (m : M F A) (f : A → M F B)
      → Asks k m
      → ((a : A) → Asks l (f a))
      → Asks (k + l) (m >>= f)
  unfolding ◌>>=◌
  Asks-bind m f a b = record { at = λ s. omega (arith, a.at s, Asks-continue (m s).0 f (m s).1 b) }
