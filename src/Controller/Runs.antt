-- ===== src/Controller/Runs.antt =====
-- What a run of an action keeps: the instance behind the pointer changes in its status only, and
-- the history grows by requests that are permitted where they stand. One rule for each way to
-- build an action.
pub mod From
use paperless_ngx_operator.Prelude.{
  Bool, true, false, String, ◌∷◌, Error, Result, ok, err, ◌≡◌, refl, ◌∙◌, if◌then◌else◌, ◌≤◌,
  length, arith,
}
use paperless_ngx_operator.Kube.{Foreign}
use paperless_ngx_operator.Api.Types.{PaperlessInstance}
use paperless_ngx_operator.Controller.Client.{
  Request, History, State, M, pure, raise, lift, gets, modify, wrapping, call, attempt, continue,
  ◌>>=◌,
}

-- Two versions of an instance that differ in the status at most.
pub record SameButStatus {F : Foreign} (i j : PaperlessInstance F) : Type 0 where
  pub name : i.name ≡ j.name
  pub namespace : i.namespace ≡ j.namespace
  pub uid : i.uid ≡ j.uid
  pub generation : i.generation ≡ j.generation
  pub spec : i.spec ≡ j.spec

pub SameButStatus-refl : {F : Foreign} (i : PaperlessInstance F) → SameButStatus i i
SameButStatus-refl i = record {
  name = refl;
  namespace = refl;
  uid = refl;
  generation = refl;
  spec = refl;
}

pub SameButStatus-eq : {F : Foreign} {i j : PaperlessInstance F} → i ≡ j → SameButStatus i j
SameButStatus-eq {i = i} e = rw (← e) (SameButStatus-refl i)

pub SameButStatus-trans :
    {F : Foreign} {i j k : PaperlessInstance F}
    → SameButStatus i j
    → SameButStatus j k
    → SameButStatus i k
SameButStatus-trans a b = record {
  name = a.name ∙ b.name;
  namespace = a.namespace ∙ b.namespace;
  uid = a.uid ∙ b.uid;
  generation = a.generation ∙ b.generation;
  spec = a.spec ∙ b.spec;
}

-- A history that grows from another by requests, each with a property that may look at the
-- history before it.
pub data Grows {F : Foreign} (P : Request F → History F → Type 0) (h : History F)
    : History F → Type 0 where
  same : Grows P h h
  more : {k : History F} → (q : Request F) → Grows P h k → P q k → Grows P h (q ∷ k)

pub Grows-trans :
    {F : Foreign} {P : Request F → History F → Type 0} {h k l : History F}
    → Grows P h k
    → Grows P k l
    → Grows P h l
Grows-trans g same = g
Grows-trans g (more q g' p) = more q (Grows-trans g g') p

pub Grows-map :
    {F : Foreign} {P Q : Request F → History F → Type 0} {h k : History F}
    → ((q : Request F) (l : History F) → P q l → Q q l)
    → Grows P h k
    → Grows Q h k
Grows-map f same = same
Grows-map f (more q g p) = more q (Grows-map f g) (f q _ p)

pub Grows-length :
    {F : Foreign} {P : Request F → History F → Type 0} {h k : History F}
    → Grows P h k
    → length h ≤ length k
Grows-length same = omega arith
Grows-length (more q g p) = omega (arith, Grows-length g)

pub record Runs {F : Foreign} (P : Request F → History F → Type 0) (s t : State F) : Type 0 where
  pub static : SameButStatus s.inst t.inst
  pub grows : Grows P s.history t.history

-- Every run of the action keeps that.
pub record Keeps {F : Foreign} {A : Type 0} (P : Request F → History F → Type 0) (m : M F A)
    : Type 0 where
  pub at : (s : State F) → Runs P s (m s).1

module _ {F : Foreign} {P : Request F → History F → Type 0} where
  pub Runs-refl : (s : State F) → Runs P s s
  Runs-refl s = record { static = SameButStatus-refl s.inst; grows = same }

  pub Runs-trans : {s t u : State F} → Runs P s t → Runs P t u → Runs P s u
  Runs-trans a b = record {
    static = SameButStatus-trans a.static b.static;
    grows = Grows-trans a.grows b.grows;
  }

module _ {F : Foreign} {P : Request F → History F → Type 0} {A : Type 0} where
  pub Keeps-pure : (a : A) → Keeps P (pure a)
  unfolding ◌>>=◌
  Keeps-pure a = record { at = Runs-refl }

  pub Keeps-raise : (e : Error) → Keeps P (raise {A = A} e)
  unfolding ◌>>=◌
  Keeps-raise e = record { at = Runs-refl }

  pub Keeps-lift : (r : Result A) → Keeps P (lift r)
  unfolding ◌>>=◌
  Keeps-lift r = record { at = Runs-refl }

  pub Keeps-gets : (f : State F → A) → Keeps P (gets f)
  unfolding ◌>>=◌
  Keeps-gets f = record { at = Runs-refl }

  pub Keeps-wrapping : (prefix : String) (m : M F A) → Keeps P m → Keeps P (wrapping prefix m)
  unfolding ◌>>=◌
  Keeps-wrapping prefix m k = record { at = k.at }

  pub Keeps-attempt : (m : M F A) → Keeps P m → Keeps P (attempt m)
  unfolding ◌>>=◌
  Keeps-attempt m k = record { at = k.at }

  pub Keeps-call :
      (answer : History F → Result A) (q : Request F)
      → ((h : History F) → P q h)
      → Keeps P (call answer q)
  unfolding ◌>>=◌
  Keeps-call answer q p = record {
    at = λ s. record { static = SameButStatus-refl s.inst; grows = more q same (p s.history) };
  }

  pub Keeps-if :
      (test : Bool) (this other : M F A)
      → (test ≡ true → Keeps P this)
      → (test ≡ false → Keeps P other)
      → Keeps P (if test then this else other)
  Keeps-if false this other on_true on_false = on_false refl
  Keeps-if true this other on_true on_false = on_true refl

module _ {F : Foreign} {P : Request F → History F → Type 0} where
  pub Keeps-modify :
      (f : PaperlessInstance F → PaperlessInstance F)
      → ((i : PaperlessInstance F) → SameButStatus i (f i))
      → Keeps P (modify f)
  unfolding ◌>>=◌
  Keeps-modify f h = record { at = λ s. record { static = h s.inst; grows = same } }

module _ {F : Foreign} {P : Request F → History F → Type 0} {A B : Type 0} where
  -- The rest may use that `r` is no error.
  pub Keeps-bind-lift :
      (r : Result A) (f : A → M F B) → ((a : A) → r ≡ ok a → Keeps P (f a)) → Keeps P (lift r >>= f)
  unfolding ◌>>=◌
  Keeps-bind-lift (ok a) f k = k a refl
  Keeps-bind-lift (err e) f k = record { at = Runs-refl }

  pub Keeps-bind :
      (m : M F A) (f : A → M F B) → Keeps P m → ((a : A) → Keeps P (f a)) → Keeps P (m >>= f)
  unfolding ◌>>=◌
  Keeps-bind m f km kf = record {
    at = λ s. let (r, t) = m s in Runs-trans (km.at s) ((Keeps-bind-lift r f (λ a _. kf a)).at t);
  }

module _ {F : Foreign} {P : Request F → History F → Type 0} {A B : Type 0} where
  Runs-continue :
      (r : Result A) (f : A → M F B) (s : State F)
      → ((a : A) → r ≡ ok a → Runs P s (f a s).1)
      → Runs P s (continue r f s).1
  Runs-continue (ok a) f s k = k a refl
  Runs-continue (err e) f s k = Runs-refl s

  -- The rest of an action, which may use how the state has changed.
  pub Runs-bind :
      (m : M F A) (f : A → M F B) (s : State F)
      → Runs P s (m s).1
      → ((a : A) → (m s).0 ≡ ok a → Runs P (m s).1 (f a (m s).1).1)
      → Runs P s ((m >>= f) s).1
  unfolding ◌>>=◌
  Runs-bind m f s first rest = Runs-trans first (Runs-continue (m s).0 f (m s).1 rest)

  -- The rest of an action that has not changed the state yet.
  pub Runs-bind_still :
      (m : M F A) (f : A → M F B) (s : State F)
      → (m s).1 ≡ s
      → ((a : A) → (m s).0 ≡ ok a → Runs P s (f a s).1)
      → Runs P s ((m >>= f) s).1
  unfolding ◌>>=◌
  Runs-bind_still m f s still k = rw still (Runs-continue (m s).0 f s k)

module _ {F : Foreign} {P : Request F → History F → Type 0} {A : Type 0} where
  pub Runs-call :
      (answer : History F → Result A) (q : Request F) (s : State F)
      → P q s.history
      → Runs P s (call answer q s).1
  unfolding ◌>>=◌
  Runs-call answer q s p = record { static = SameButStatus-refl s.inst; grows = more q same p }

  pub Runs-wrapping :
      (prefix : String) (m : M F A) (s : State F)
      → Runs P s (m s).1
      → Runs P s (wrapping prefix m s).1
  unfolding ◌>>=◌
  Runs-wrapping prefix m s r = r

pub ruleset keeps_rules = (
  Keeps-pure, Keeps-raise, Keeps-lift, Keeps-gets, Keeps-wrapping, Keeps-attempt, Keeps-if,
  Keeps-bind,
)
