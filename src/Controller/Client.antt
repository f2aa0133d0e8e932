-- ===== src/Controller/Client.antt =====
-- The client of the reconciler. The API server is not code of this repository, and other clients
-- change its state at any time: a `Server` answers each request by any function of the requests
-- that the reconciler has made before. A method of the reconciler is an action: it reads and
-- changes the caller's instance, through the pointer `inst`, and the history of requests.
use paperless_ngx_operator.Prelude.{
  ℕ, ℤ, Bool, false, String, List, ◌∷◌, Error, failure, plain, wrap, Result, ok, err, wrap_error,
}
use paperless_ngx_operator.Kube.{Foreign}
use paperless_ngx_operator.Kube.Json.{Fields}
use paperless_ngx_operator.Kube.Objects.{Condition, ObjectKey, ObjectMeta, Object, Secret}
use paperless_ngx_operator.Api.Types.{PaperlessInstance}

pub record GroupVersionKind : Type 0 where
  pub group : String
  pub version : String
  pub kind : String

-- A request to the API server. `apply_patch` is a Server-Side Apply of an object and its JSON text
-- under the operator's field owner, with force; `merge_patch_secret` is a JSON merge patch;
-- `patch_status` is a merge patch of the status against the instance as it was first read.
pub data Request (F : Foreign) : Type 0 where
  get_instance : ObjectKey → Request F
  get_secret : ObjectKey → Request F
  get_crd : String → Request F
  create_secret : Secret F → Request F
  apply_patch : Object F → String → Request F
  merge_patch_secret : ObjectKey → String → Request F
  patch_status : PaperlessInstance F → PaperlessInstance F → Request F

-- The requests so far, newest first.
abbrev pub History : Foreign → Type 0
History F = List (Request F)

-- The answers, each a function of the history before the request. That of `apply_patch` is the
-- field `status.readyReplicas` of the object that comes back, 0 for a kind that has none.
-- `rand_read` is the content that `rand.Read` gives a buffer of some length.
pub record Server (F : Foreign) : Type 0 where
  pub instance_answer : History F → ObjectKey → Result (PaperlessInstance F)
  pub secret_answer : History F → ObjectKey → Result (Secret F)
  pub crd_answer : History F → String → Result (Unit {0})
  pub create_answer : History F → Secret F → Result (Unit {0})
  pub apply_answer : History F → Object F → String → Result ℤ
  pub merge_answer : History F → ObjectKey → String → Result (Unit {0})
  pub status_answer : History F → PaperlessInstance F → PaperlessInstance F → Result (Unit {0})
  pub rand_read : History F → ℕ → Result (List ℕ)

-- The library functions of the controller: `controllerutil.SetControllerReference`, here with
-- the owner references that it leaves in an object, `apiutil.GVKForObject`, `k8sjson.Marshal` of an object of a
-- kind, of an owner reference and of a map, `k8sjson.Unmarshal` into a map, and
-- `meta.SetStatusCondition`.
pub record Machinery (F : Foreign) : Type 0 where
  pub set_controller_reference : PaperlessInstance F → ObjectMeta F → Result (List F.OwnerReference)
  pub gvk_for_object : Object F → Result GroupVersionKind
  pub marshal : GroupVersionKind → Object F → Result String
  pub marshal_reference : F.OwnerReference → Result String
  pub marshal_map : Fields → Result String
  pub unmarshal : String → Result Fields
  pub set_status_condition : List Condition → Condition → List Condition

-- `apierrors.IsNotFound`, which looks through the wrapping.
abbrev pub is_not_found : Error → Bool
is_not_found (failure f) = f.not_found
is_not_found (plain s) = false
is_not_found (wrap s e) = is_not_found e

pub record State (F : Foreign) : Type 0 where
  pub inst : PaperlessInstance F
  pub history : History F

abbrev pub M : Foreign → Type 0 → Type 0
M F A = State F → Result A × State F

module _ {F : Foreign} where
  pub pure : {A : Type 0} → A → M F A
  pure a s = (ok a, s)

  pub raise : {A : Type 0} → Error → M F A
  raise e s = (err e, s)

  pub lift : {A : Type 0} → Result A → M F A
  lift r s = (r, s)

  pub gets : {A : Type 0} → (State F → A) → M F A
  gets f s = (ok (f s), s)

  -- The instance behind the pointer.
  abbrev pub current : M F (PaperlessInstance F)
  current = gets (λ s. s.inst)

  -- A change of the instance behind the pointer.
  pub modify : (PaperlessInstance F → PaperlessInstance F) → M F (Unit {0})
  modify f s = (ok tt, record s { inst = f s.inst })

  -- `fmt.Errorf("prefix: %w", err)` where the action fails.
  pub wrapping : {A : Type 0} → String → M F A → M F A
  wrapping prefix m s = (wrap_error prefix (m s).0, (m s).1)

  -- A request and its answer.
  pub call : {A : Type 0} → (History F → Result A) → Request F → M F A
  call answer q s = (answer s.history, record s { history = q ∷ s.history })

  -- An action with its error as a value.
  pub attempt : {A : Type 0} → M F A → M F (Result A)
  attempt m s = (ok (m s).0, (m s).1)

  abbrev pub continue : {A B : Type 0} → Result A → (A → M F B) → M F B
  continue (ok a) f s = f a s
  continue (err e) f s = (err e, s)

  infixl 5 ◌>>=◌ ◌>>◌
  -- Opening this opens the actions above.
  unfoldable pub ◌>>=◌ : {A B : Type 0} → M F A → (A → M F B) → M F B
  unfolding pure raise lift gets modify wrapping call attempt
  ◌>>=◌ m f s = continue (m s).0 f (m s).1

  abbrev pub ◌>>◌ : {A B : Type 0} → M F A → M F B → M F B
  m >> k = m >>= λ _. k
