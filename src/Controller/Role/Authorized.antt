-- ===== src/Controller/Role/Authorized.antt =====
-- Every request of a reconcile is within the role of the operator.
use paperless_ngx_operator.Prelude.{
  Bool, true, false, String, List, [], ◌∷◌, ok, ◌||◌, ◌≡◌, refl, ◌++◌, arith,
}
use paperless_ngx_operator.Kube.{Foreign}
use paperless_ngx_operator.Kube.Objects.{
  ObjectKey, deployment, service, pvc, unstructured, Unstructured, Secret, Deployment, Service,
  PersistentVolumeClaim,
}
use paperless_ngx_operator.Kube.Access.{Need, needs_of, Within, all_permitted, all_permitted-Within}
use paperless_ngx_operator.Api.Types.{PaperlessInstance}
use paperless_ngx_operator.Startup.Runtime.{SchemeLibrary, ManagerOptions, ObjectType, secret_type}
use paperless_ngx_operator.Startup.Options.{Config, controller_options}
use paperless_ngx_operator.Controller.Client.{
  Server, Machinery, Request, History, get_instance, get_secret, get_crd, create_secret,
  apply_patch, merge_patch_secret, patch_status,
}
use paperless_ngx_operator.Controller.Runs.{Grows, Grows-map}
use paperless_ngx_operator.Controller.Permitted.{Permitted}
use paperless_ngx_operator.Controller.Reconcile.{reconcile}
use paperless_ngx_operator.Controller.Reconcile.Trace.{reconcile-Grows}
use paperless_ngx_operator.Controller.Role.{role}

abbrev is_secret : ObjectType → Bool
is_secret secret_type = true
is_secret _ = false

abbrev pub lists_secret : List ObjectType → Bool
lists_secret [] = false
lists_secret (t ∷ types) = is_secret t || lists_secret types

-- An owner reference that blocks the deletion of the owner takes a right on its finalizers.
abbrev finalizers : List Need
finalizers = needs_of "paperless.p3l1.de" "paperlessinstances/finalizers" ("update" ∷ [])

-- What a Server-Side Apply of an object needs at most.
abbrev pub apply_needs : String → String → List Need
apply_needs group resource = needs_of group resource ("patch" ∷ "create" ∷ []) ++ finalizers

module _ (L : SchemeLibrary) where
  -- The manager is made without a cache for Secrets.
  controller_options-uncached :
      (c : Config) (o : ManagerOptions L)
      → controller_options L c ≡ ok o
      → lists_secret o.cache_disabled_for ≡ true
  unfolding controller_options
  controller_options-uncached c o made = ground arith

module _ (L : SchemeLibrary) {F : Foreign} where
  -- What the documentation of controller-runtime and of Kubernetes says of the rights that the
  -- requests of a client need, where the manager has the options. A read of an object takes list
  -- and watch, since it goes through a cache, but for the types for which that is disabled.
  pub record Documented (needs : ManagerOptions L → Request F → List Need) : Type 0 where
    pub instance_read :
        (o : ManagerOptions L) (key : ObjectKey)
        → Within
            (needs o (get_instance key))
            (needs_of "paperless.p3l1.de" "paperlessinstances" ("get" ∷ "list" ∷ "watch" ∷ []))
    pub secret_uncached :
        (o : ManagerOptions L) (key : ObjectKey)
        → lists_secret o.cache_disabled_for ≡ true
        → Within (needs o (get_secret key)) (needs_of "" "secrets" ("get" ∷ []))
    pub crd_read :
        (o : ManagerOptions L) (name : String)
        → Within (needs o (get_crd name)) (
            needs_of "apiextensions.k8s.io" "customresourcedefinitions"
              ("get" ∷ "list" ∷ "watch" ∷ []))
    pub secret_created :
        (o : ManagerOptions L) (s : Secret F)
        → Within (needs o (create_secret s)) (needs_of "" "secrets" ("create" ∷ []) ++ finalizers)
    pub secret_patched :
        (o : ManagerOptions L) (key : ObjectKey) (body : String)
        → Within
            (needs o (merge_patch_secret key body))
            (needs_of "" "secrets" ("patch" ∷ []) ++ finalizers)
    pub status_patched :
        (o : ManagerOptions L) (sent base : PaperlessInstance F)
        → Within
            (needs o (patch_status sent base))
            (needs_of "paperless.p3l1.de" "paperlessinstances/status" ("patch" ∷ []))
    pub deployment_applied :
        (o : ManagerOptions L) (d : Deployment F) (body : String)
        → Within (needs o (apply_patch (deployment d) body)) (apply_needs "apps" "deployments")
    pub service_applied :
        (o : ManagerOptions L) (s : Service F) (body : String)
        → Within (needs o (apply_patch (service s) body)) (apply_needs "" "services")
    pub pvc_applied :
        (o : ManagerOptions L) (p : PersistentVolumeClaim F) (body : String)
        → Within (needs o (apply_patch (pvc p) body)) (apply_needs "" "persistentvolumeclaims")
    pub cluster_applied :
        (o : ManagerOptions L) (u : Unstructured F) (body : String)
        → u.api_version ≡ "postgresql.cnpg.io/v1"
        → u.kind ≡ "Cluster"
        → Within
            (needs o (apply_patch (unstructured u) body))
            (apply_needs "postgresql.cnpg.io" "clusters")

  module _ (needs : ManagerOptions L → Request F → List Need) (documented : Documented needs)
      (S : Server F) (K : Machinery F) where
    within_role :
        (o : ManagerOptions L) (q : Request F) (h : History F)
        → lists_secret o.cache_disabled_for ≡ true
        → Permitted S K true q h
        → all_permitted role (needs o q) ≡ true
    unfolding role
    within_role o (get_instance key) h uncached p =
        all_permitted-Within role _ _ refl (documented.instance_read o key)
    within_role o (get_secret key) h uncached p =
        all_permitted-Within role _ _ refl (documented.secret_uncached o key uncached)
    within_role o (get_crd name) h uncached p =
        all_permitted-Within role _ _ refl (documented.crd_read o name)
    within_role o (create_secret s) h uncached p =
        all_permitted-Within role _ _ refl (documented.secret_created o s)
    within_role o (merge_patch_secret key body) h uncached p =
        all_permitted-Within role _ _ refl (documented.secret_patched o key body)
    within_role o (patch_status sent base) h uncached p =
        all_permitted-Within role _ _ refl (documented.status_patched o sent base)
    within_role o (apply_patch (deployment d) body) h uncached p =
        all_permitted-Within role _ _ refl (documented.deployment_applied o d body)
    within_role o (apply_patch (service s) body) h uncached p =
        all_permitted-Within role _ _ refl (documented.service_applied o s body)
    within_role o (apply_patch (pvc v) body) h uncached p =
        all_permitted-Within role _ _ refl (documented.pvc_applied o v body)
    within_role o (apply_patch (unstructured u) body) h uncached (w, (version, kind), enc) =
        all_permitted-Within role _ _ refl (documented.cluster_applied o u body version kind)

    -- With the options that the program makes, a reconcile sends no request that needs a right which the
    -- role does not give; in particular, none that reads a Secret through a cache.
    pub reconcile-permitted :
        (c : Config) (o : ManagerOptions L) (key : ObjectKey) (h : History F)
        → controller_options L c ≡ ok o
        → Grows (λ q k. all_permitted role (needs o q) ≡ true) h (reconcile S K key h).1
    reconcile-permitted c o key h made =
        Grows-map (λ q k. within_role o q k (controller_options-uncached L c o made))
          (reconcile-Grows S K key h)
