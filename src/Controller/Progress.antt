-- ===== src/Controller/Progress.antt =====
-- What the reconciler needs of its surroundings to succeed, and the rules for actions that do.
pub mod Apply
pub mod Ownership
pub mod Secrets
pub mod Database
pub mod Whole
pub mod Retries
use paperless_ngx_operator.Prelude.{
  ℕ, ℤ, suc, ◌≤◌, true, String, Option, none, some, List, [], ◌∷◌, ◌∙◌, Error, Result, ok, err, ◌≡◌,
  refl, sym, ◌⊎◌, arith, length, is_some, is_empty, lookup, wrap_error,
}
use paperless_ngx_operator.Kube.{Foreign}
use paperless_ngx_operator.Kube.Json.{Fields}
use paperless_ngx_operator.Kube.Objects.{ObjectKey, ObjectMeta, Object, Secret}
use paperless_ngx_operator.Api.Types.{PaperlessInstance, ExternalDatabase}
use paperless_ngx_operator.Resources.Names.{
  derived_name, secret_key_name, admin_secret_name, db_name,
}
use paperless_ngx_operator.Controller.Client.{
  Server, Machinery, GroupVersionKind, Request, History, State, M, is_not_found, get_secret, pure,
  raise, lift, gets, modify, wrapping, call, attempt, continue, ◌>>=◌,
}
use paperless_ngx_operator.Controller.Secrets.{key_of}
use paperless_ngx_operator.Controller.Runs.{SameButStatus, SameButStatus-trans}

-- An object without owners in the namespace of the instance, which it may come to own.
abbrev pub IsOwnable : {F : Foreign} → PaperlessInstance F → ObjectMeta F → Type 0
IsOwnable i meta = (meta.namespace ≡ i.namespace) × (meta.owner_references ≡ [])

-- The functions of the controller's libraries do not fail on what the program gives them: an owner
-- reference to an instance can be set on an object without owners in its namespace, the kind of an object is known, values can be encoded, and what was
-- encoded can be decoded.
pub record Works {F : Foreign} (K : Machinery F) : Type 0 where
  pub references_set :
      (i : PaperlessInstance F) (meta : ObjectMeta F)
      → IsOwnable i meta
      → (refs : List F.OwnerReference) × (K.set_controller_reference i meta ≡ ok refs)
  pub kind_known : (obj : Object F) → (gvk : GroupVersionKind) × (K.gvk_for_object obj ≡ ok gvk)
  pub encodes :
      (gvk : GroupVersionKind) (obj : Object F)
      → (text : String) × (m : Fields) × (K.marshal gvk obj ≡ ok text) × (K.unmarshal text ≡ ok m)
  pub encodes_reference :
      (r : F.OwnerReference)
      → (text : String) × (m : Fields) × (K.marshal_reference r ≡ ok text)
        × (K.unmarshal text ≡ ok m)
  pub encodes_map : (m : Fields) → (text : String) × (K.marshal_map m ≡ ok text)

-- From the n-th request on, the API server and the source of randomness serve every request: a
-- Secret is there or missing, CloudNativePG is installed, no apply and no patch of the status is
-- refused, a Secret can be patched right after a Get that found it, and created right after one
-- that did not.
pub record Serves {F : Foreign} (S : Server F) (n : ℕ) : Type 0 where
  pub secret_read :
      (h : History F) (key : ObjectKey)
      → n ≤ length h
      → ((s : Secret F) × (S.secret_answer h key ≡ ok s) × (key_of s.metadata ≡ key))
        ⊎ ((e : Error) × (S.secret_answer h key ≡ err e) × (is_not_found e ≡ true))
  pub installed : (h : History F) (name : String) → n ≤ length h → S.crd_answer h name ≡ ok tt
  pub created :
      (h : History F) (s : Secret F) (e : Error)
      → n ≤ length h
      → S.secret_answer h (key_of s.metadata) ≡ err e
      → is_not_found e ≡ true
      → S.create_answer (get_secret (key_of s.metadata) ∷ h) s ≡ ok tt
  pub applied :
      (h : History F) (obj : Object F) (body : String)
      → n ≤ length h
      → (replicas : ℤ) × (S.apply_answer h obj body ≡ ok replicas)
  pub merged :
      (h : History F) (key : ObjectKey) (s : Secret F) (body : String)
      → n ≤ length h
      → S.secret_answer h key ≡ ok s
      → S.merge_answer (get_secret key ∷ h) key body ≡ ok tt
  pub patched :
      (h : History F) (sent base : PaperlessInstance F)
      → n ≤ length h
      → S.status_answer h sent base ≡ ok tt
  pub random : (h : History F) (k : ℕ) → n ≤ length h → (raw : List ℕ) × (S.rand_read h k ≡ ok raw)

-- The names that the builders check are valid, and the credentials of an external database are
-- there with both keys from the n-th request on.
pub record IsReconcilable {F : Foreign} (S : Server F) (n : ℕ) (i : PaperlessInstance F)
    : Type 0 where
  pub secret_key_valid : is_empty (F.is_dns1123_subdomain (secret_key_name i)) ≡ true
  pub admin_valid : is_empty (F.is_dns1123_subdomain (admin_secret_name i)) ≡ true
  pub db_valid : is_empty (F.is_dns1123_subdomain (db_name i)) ≡ true
  pub credentials :
      (ext : ExternalDatabase) (h : History F)
      → i.spec.database.external ≡ some ext
      → n ≤ length h
      → (s : Secret F) × (S.secret_answer h
            (record { name = ext.credentials_secret_ref.name; namespace = i.namespace })
          ≡ ok s)
        × (is_some (lookup "username" s.contents) ≡ true)
        × (is_some (lookup "password" s.contents) ≡ true)

pub derived_name-SameButStatus :
    {F : Foreign} {i j : PaperlessInstance F}
    → SameButStatus i j
    → (suffix : String) → derived_name j suffix ≡ derived_name i suffix
unfolding derived_name
derived_name-SameButStatus same_ suffix = rw (sym same_.name) refl

pub IsOwnable-SameButStatus :
    {F : Foreign} {i j : PaperlessInstance F} (meta : ObjectMeta F)
    → SameButStatus i j
    → IsOwnable j meta
    → IsOwnable i meta
IsOwnable-SameButStatus meta same_ (namespace, ownerless) =
    (namespace ∙ sym same_.namespace, ownerless)

-- The steps of `i` after the n-th request.
pub record Late {F : Foreign} (i : PaperlessInstance F) (n : ℕ) (s : State F) : Type 0 where
  pub same_spec : SameButStatus i s.inst
  pub late : n ≤ length s.history

-- From there, the action succeeds with a value that satisfies `Q`.
pub record Succeeds {F : Foreign} {A : Type 0} (i : PaperlessInstance F) (n : ℕ) (Q : A → Type 0)
    (m : M F A) : Type 0 where
  pub at : (s : State F) → Late i n s → (a : A) × ((m s).0 ≡ ok a) × Q a × Late i n (m s).1

module _ {F : Foreign} {i : PaperlessInstance F} {n : ℕ} where
  pub Late-asked :
      (q : Request F) (s : State F) → Late i n s → Late i n (record s { history = q ∷ s.history })
  Late-asked q s l = record { same_spec = l.same_spec; late = omega (arith, l.late) }

module _ {F : Foreign} {i : PaperlessInstance F} {n : ℕ} {A : Type 0} {Q : A → Type 0} where
  pub Succeeds-pure : (a : A) → Q a → Succeeds i n Q (pure a)
  unfolding ◌>>=◌
  Succeeds-pure a q = record { at = λ s l. (a, refl, q, l) }

  pub Succeeds-lift : (r : Result A) (a : A) → r ≡ ok a → Q a → Succeeds i n Q (lift r)
  unfolding ◌>>=◌
  Succeeds-lift r a is q = record { at = λ s l. (a, is, q, l) }

  pub Succeeds-gets :
      (f : State F → A) → ((s : State F) → Late i n s → Q (f s)) → Succeeds i n Q (gets f)
  unfolding ◌>>=◌
  Succeeds-gets f q = record { at = λ s l. (f s, refl, q s l, l) }

  pub Succeeds-wrapping :
      (prefix : String) (m : M F A) → Succeeds i n Q m → Succeeds i n Q (wrapping prefix m)
  unfolding ◌>>=◌
  Succeeds-wrapping prefix m k = record {
    at = λ s l. let (a, is, q, end) = k.at s l in (a, rw is refl, q, end);
  }

  pub Succeeds-call :
      (answer : History F → Result A) (q : Request F)
      → ((h : History F) → n ≤ length h → (a : A) × (answer h ≡ ok a) × Q a)
      → Succeeds i n Q (call answer q)
  unfolding ◌>>=◌
  Succeeds-call answer q serves = record {
    at = λ s l. let (a, is, holds) = serves s.history l.late in (a, is, holds, Late-asked q s l);
  }

module _ {F : Foreign} {i : PaperlessInstance F} {n : ℕ} {A : Type 0} where
  -- A request whose answer is looked at, an error included.
  pub Succeeds-attempt-call :
      {Q : Result A → Type 0} (answer : History F → Result A) (q : Request F)
      → ((h : History F) → n ≤ length h → Q (answer h))
      → Succeeds i n Q (attempt (call answer q))
  unfolding ◌>>=◌
  Succeeds-attempt-call answer q serves = record {
    at = λ s l. (answer s.history, refl, serves s.history l.late, Late-asked q s l);
  }

  pub Succeeds-attempt :
      {Q : A → Type 0} (m : M F A)
      → Succeeds i n Q m
      → Succeeds i n (λ r. (a : A) × (r ≡ ok a) × Q a) (attempt m)
  unfolding ◌>>=◌
  Succeeds-attempt m k = record {
    at = λ s l. let (a, is, q, end) = k.at s l in ((m s).0, refl, (a, is, q), end);
  }

module _ {F : Foreign} {i : PaperlessInstance F} {n : ℕ} where
  pub Succeeds-modify :
      (f : PaperlessInstance F → PaperlessInstance F)
      → ((j : PaperlessInstance F) → SameButStatus j (f j))
      → Succeeds i n (λ _. Unit) (modify f)
  unfolding ◌>>=◌
  Succeeds-modify f h = record {
    at = λ s l. (
      tt,
      refl,
      tt,
      record { same_spec = SameButStatus-trans l.same_spec (h s.inst); late = l.late },
    );
  }

module _ {F : Foreign} {i : PaperlessInstance F} {n : ℕ} {A B : Type 0} {Q : A → Type 0}
    {R : B → Type 0} where
  pub Succeeds-bind :
      (m : M F A) (f : A → M F B)
      → Succeeds i n Q m
      → ((a : A) → Q a → Succeeds i n R (f a))
      → Succeeds i n R (m >>= f)
  unfolding ◌>>=◌
  Succeeds-bind m f first rest = record {
    at = λ s l.
        let (a, is, q, end) = first.at s l in
        let (b, done, r, last) = (rest a q).at (m s).1 end in (b, rw is done, r, rw is last);
  }
