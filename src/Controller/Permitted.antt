-- ===== src/Controller/Permitted.antt =====
-- The requests that the reconciler may make, each with what justifies it where it stands.
use paperless_ngx_operator.Prelude.{
  Bool, true, false, String, ◌∷◌, Error, ok, err, ◌≡◌, refl, wrap_error-eq-ok,
}
use paperless_ngx_operator.Kube.{Foreign}
use paperless_ngx_operator.Kube.Json.{Items}
use paperless_ngx_operator.Kube.Objects.{
  ObjectKey, Object, ObjectMeta, deployment, service, pvc, unstructured, metadata, with_metadata,
}
use paperless_ngx_operator.Resources.Database.{cnpg_api_version, cnpg_kind}
use paperless_ngx_operator.Controller.Client.{
  Server, Machinery, GroupVersionKind, Request, History, get_instance, get_secret, get_crd,
  create_secret, apply_patch, merge_patch_secret, patch_status, is_not_found,
}
use paperless_ngx_operator.Controller.References.{set_explicit_owner_references, ownership_patch}
use paperless_ngx_operator.Controller.Runs.{
  Keeps, Keeps-bind-lift, Keeps-wrapping, Keeps-call, Keeps-bind, keeps_rules,
}
use paperless_ngx_operator.Controller.Apply.{apply, apply_owned, apply_stateful}
use paperless_ngx_operator.Controller.Secrets.{key_of}

-- Whether an object is a Deployment or a Service.
abbrev pub is_workload : {F : Foreign} → Object F → Bool
is_workload (deployment d) = true
is_workload (service s) = true
is_workload (pvc p) = false
is_workload (unstructured u) = false

-- An unstructured object is a Cluster of CloudNativePG.
abbrev pub IsOperand : {F : Foreign} → Object F → Type 0
IsOperand (unstructured u) = (u.api_version ≡ cnpg_api_version) × (u.kind ≡ cnpg_kind)
IsOperand _ = Unit

IsOperand-with_metadata :
    {F : Foreign} (m : ObjectMeta F) (obj : Object F)
    → IsOperand obj
    → IsOperand (with_metadata m obj)
IsOperand-with_metadata m (deployment d) is = is
IsOperand-with_metadata m (service s) is = is
IsOperand-with_metadata m (pvc p) is = is
IsOperand-with_metadata m (unstructured u) is = is

module _ {F : Foreign} (S : Server F) (K : Machinery F) where
  -- The Secret was asked for just before, and the answer was that it does not exist.
  pub record FollowsMissing (meta : ObjectMeta F) (h : History F) : Type 0 where
    pub rest : History F
    pub error : Error
    pub asked : h ≡ get_secret (key_of meta) ∷ rest
    pub answered : S.secret_answer rest (key_of meta) ≡ err error
    pub missing : is_not_found error ≡ true

  -- The text of an apply is the object's own, with its owner references made explicit.
  pub record IsEncoding (obj : Object F) (body : String) : Type 0 where
    pub gvk : GroupVersionKind
    pub encoded : String
    pub marshalled : K.marshal gvk obj ≡ ok encoded
    pub explicit : set_explicit_owner_references K encoded (metadata obj).owner_references ≡ ok body

  -- With `workload` false, no Deployment and no Service may be applied. An unstructured object
  -- that is applied is a Cluster of CloudNativePG. A merge patch of a Secret
  -- may set owner references only.
  abbrev pub Permitted : Bool → Request F → History F → Type 0
  Permitted workload (create_secret s) h = FollowsMissing s.metadata h
  Permitted workload (apply_patch obj body) h =
      (is_workload obj ≡ true → workload ≡ true) × IsOperand obj × IsEncoding obj body
  Permitted workload (merge_patch_secret key body) h =
      (list : Items) × (K.marshal_map (ownership_patch list) ≡ ok body)
  Permitted workload (patch_status sent base) h = sent.status.observed_generation ≡ sent.generation
  Permitted workload _ h = Unit

  pub Permitted-mono : (q : Request F) (h : History F) → Permitted false q h → Permitted true q h
  Permitted-mono (apply_patch obj body) h p = ((λ _. refl), p.1, p.2)
  Permitted-mono (create_secret s) h p = p
  Permitted-mono (merge_patch_secret key body) h p = p
  Permitted-mono (patch_status sent base) h p = p
  Permitted-mono (get_instance key) h p = p
  Permitted-mono (get_secret key) h p = p
  Permitted-mono (get_crd name) h p = p

  pub apply-Keeps :
      (workload : Bool) (obj : Object F)
      → (is_workload obj ≡ true → workload ≡ true)
      → IsOperand obj
      → Keeps (Permitted workload) (apply S K obj)
  unfolding apply
  apply-Keeps workload obj allowed operand = Keeps-bind-lift _ _ λ gvk _.
      Keeps-bind-lift _ _ λ encoded e. Keeps-bind-lift _ _ λ body b. Keeps-wrapping _ _ (
        Keeps-call _ _ λ h. (
          allowed,
          operand,
          record {
            gvk = gvk;
            encoded = encoded;
            marshalled = wrap_error-eq-ok _ _ e;
            explicit = wrap_error-eq-ok _ _ b;
          },
        ))

  is_workload-with_metadata :
      (m : ObjectMeta F) (obj : Object F) → is_workload (with_metadata m obj) ≡ is_workload obj
  is_workload-with_metadata m (deployment d) = refl
  is_workload-with_metadata m (service s) = refl
  is_workload-with_metadata m (pvc p) = refl
  is_workload-with_metadata m (unstructured u) = refl

  -- A property of requests that allows what the steps after that of the Secrets do: their reads,
  -- and the apply of an object, with `workload` false of none that is a Deployment or a Service.
  pub record Allows (P : Request F → History F → Type 0) (workload : Bool) : Type 0 where
    pub secret_read : (key : ObjectKey) (h : History F) → P (get_secret key) h
    pub crd_read : (name : String) (h : History F) → P (get_crd name) h
    pub applied :
        (obj : Object F)
        → (is_workload obj ≡ true → workload ≡ true)
        → IsOperand obj
        → Keeps P (apply S K obj)

  pub Permitted-Allows : (workload : Bool) → Allows (Permitted workload) workload
  Permitted-Allows workload = record {
    secret_read = λ key h. tt;
    crd_read = λ name h. tt;
    applied = apply-Keeps workload;
  }

  module _ {P : Request F → History F → Type 0} {workload : Bool} (allows : Allows P workload) where
    pub apply_owned-Keeps :
        (obj : Object F)
        → (is_workload obj ≡ true → workload ≡ true)
        → IsOperand obj
        → Keeps P (apply_owned S K obj)
    unfolding apply_owned
    apply_owned-Keeps obj allowed operand = Keeps-bind _ _ (search keeps_rules) λ meta.
        allows.applied _ (rw is_workload-with_metadata allowed)
          (IsOperand-with_metadata _ obj operand)

    pub apply_stateful-Keeps :
        (obj : Object F)
        → (is_workload obj ≡ true → workload ≡ true)
        → IsOperand obj
        → Keeps P (apply_stateful S K obj)
    unfolding apply_stateful
    apply_stateful-Keeps obj allowed operand = Keeps-bind _ _ (search keeps_rules) λ meta.
        allows.applied _ (rw is_workload-with_metadata allowed)
          (IsOperand-with_metadata _ obj operand)
