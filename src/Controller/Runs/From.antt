-- ===== src/Controller/Runs/From.antt =====
-- Actions that keep something where they run on a version of one instance: one that differs in
-- the status at most.
use paperless_ngx_operator.Prelude.{String, Result, ok, err, ◌≡◌, refl}
use paperless_ngx_operator.Kube.{Foreign}
use paperless_ngx_operator.Api.Types.{PaperlessInstance}
use paperless_ngx_operator.Controller.Client.{
  Request, History, State, M, ◌>>=◌, lift, wrapping, attempt, current,
}
use paperless_ngx_operator.Controller.Runs.{
  SameButStatus, SameButStatus-trans, Runs, Runs-bind, Runs-wrapping, Keeps, Keeps-raise,
}

-- Every run on a version of the instance keeps that.
pub record From {F : Foreign} (i : PaperlessInstance F) (P : Request F → History F → Type 0)
    {A : Type 0} (m : M F A) : Type 0 where
  pub at : (s : State F) → SameButStatus i s.inst → Runs P s (m s).1

module _ {F : Foreign} {i : PaperlessInstance F} {P : Request F → History F → Type 0} where
  pub From-Keeps : {A : Type 0} (m : M F A) → Keeps P m → From i P m
  From-Keeps m k = record { at = λ s version. k.at s }

  pub From-bind :
      {A B : Type 0} (m : M F A) (f : A → M F B)
      → From i P m
      → ((a : A) → From i P (f a))
      → From i P (m >>= f)
  From-bind m f first rest = record {
    at = λ s version.
        Runs-bind m f s (first.at s version)
          λ a _. (rest a).at (m s).1 (SameButStatus-trans version (first.at s version).static);
  }

  pub From-current :
      {B : Type 0} (f : PaperlessInstance F → M F B)
      → ((j : PaperlessInstance F) → SameButStatus i j → From i P (f j))
      → From i P (current >>= f)
  unfolding ◌>>=◌
  From-current f rest = record { at = λ s version. (rest s.inst version).at s version }

  pub From-wrapping :
      {A : Type 0} (prefix : String) (m : M F A) → From i P m → From i P (wrapping prefix m)
  From-wrapping prefix m k = record { at = λ s version. Runs-wrapping prefix m s (k.at s version) }

  pub From-attempt : {A : Type 0} (m : M F A) → From i P m → From i P (attempt m)
  unfolding ◌>>=◌
  From-attempt m k = record { at = k.at }

  pub From-bind-lift :
      {A B : Type 0} (r : Result A) (f : A → M F B)
      → ((a : A) → r ≡ ok a → From i P (f a))
      → From i P (lift r >>= f)
  unfolding ◌>>=◌
  From-bind-lift (ok a) f rest = rest a refl
  From-bind-lift (err e) f rest = From-Keeps _ (Keeps-raise e)
