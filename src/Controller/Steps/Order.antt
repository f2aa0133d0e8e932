-- ===== src/Controller/Steps/Order.antt =====
-- The requests of the storage step and of the cache step, in their order.
use paperless_ngx_operator.Prelude.{
  ℤ, false, String, Option, none, some, List, [], ◌∷◌, ◌++◌, ok, ◌≡◌, ◌≢◌, refl,
}
use paperless_ngx_operator.Kube.{Foreign}
use paperless_ngx_operator.Kube.Objects.{
  Object, PersistentVolumeClaim, deployment, service, pvc, metadata,
}
use paperless_ngx_operator.Api.Types.{PaperlessInstance}
use paperless_ngx_operator.Api.Defaults.{is_managed}
use paperless_ngx_operator.Resources.Storage.{pvcs}
use paperless_ngx_operator.Resources.Cache.{valkey_deployment, valkey_service, valkey_pvc}
use paperless_ngx_operator.Controller.Client.{Server, Machinery, State, ◌>>=◌, pure}
use paperless_ngx_operator.Controller.Inversion.{bind-eq-ok, wrapping-eq-ok}
use paperless_ngx_operator.Controller.Apply.Success.{
  Sent, with_references, apply_owned-Sent, apply_stateful-Sent,
}
use paperless_ngx_operator.Controller.Steps.{
  apply_pvcs, reconcile_storage, apply_if_some, object_of, reconcile_cache,
}

module _ {F : Foreign} (S : Server F) (K : Machinery F) where
  -- The owner references of an object under the deletion policy.
  pub record ByPolicy (s : State F) (obj : Object F) (refs : List F.OwnerReference) : Type 0 where
    pub on_delete :
        s.inst.spec.deletion_policy ≡ "Delete"
        → K.set_controller_reference s.inst (metadata obj) ≡ ok refs
    pub otherwise : s.inst.spec.deletion_policy ≢ "Delete" → refs ≡ (metadata obj).owner_references

  -- The owner references of an object that the instance controls.
  abbrev pub Controlled : State F → Object F → List F.OwnerReference → Type 0
  Controlled s obj refs = K.set_controller_reference s.inst (metadata obj) ≡ ok refs

  -- One apply for each object in turn, with owner references as `P` says, and no other request.
  pub data Applied (P : State F → Object F → List F.OwnerReference → Type 0)
      : List (Object F) → State F → State F → Type 0 where
    all_sent : {s : State F} → Applied P [] s s
    then_sent :
        {objs : List (Object F)} {s t u : State F} {n : ℤ} {obj : Object F}
        → (refs : List F.OwnerReference) → P s obj refs
        → Sent S K (with_references S K refs obj) s n t
        → Applied P objs t u
        → Applied P (obj ∷ objs) s u

  Applied-append :
      {P : State F → Object F → List F.OwnerReference → Type 0} {xs ys : List (Object F)}
      {s t u : State F}
      → Applied P xs s t
      → Applied P ys t u
      → Applied P (xs ++ ys) s u
  Applied-append all_sent rest = rest
  Applied-append (then_sent refs p sent more) rest =
      then_sent refs p sent (Applied-append more rest)

  abbrev pub pvc_objects : List (PersistentVolumeClaim F) → List (Object F)
  pvc_objects [] = []
  pvc_objects (p ∷ ps) = pvc p ∷ pvc_objects ps

  pure-state : (s : State F) → (pure tt s).1 ≡ s
  unfolding ◌>>=◌
  pure-state s = refl

  apply_pvcs-Applied :
      (ps : List (PersistentVolumeClaim F)) (s : State F)
      → (apply_pvcs S K ps s).0 ≡ ok tt
      → Applied ByPolicy (pvc_objects ps) s (apply_pvcs S K ps s).1
  unfolding apply_pvcs
  apply_pvcs-Applied [] s h = rw pure-state all_sent
  apply_pvcs-Applied (p ∷ ps) s h =
      let (n, e1, h1, t1) = bind-eq-ok _ _ s tt h in
      let (sent, t2) = wrapping-eq-ok _ _ s n e1 in
      let (refs, on_delete, otherwise, request) = apply_stateful-Sent S K (pvc p) s n sent in
      let rest = apply_pvcs-Applied ps _ h1 in
      then_sent refs (record { on_delete = on_delete; otherwise = otherwise }) request
        (rw (t1, t2) (rw t2 at rest))

  -- A storage step that succeeds has applied the claims of the instance in their order, each
  -- under the deletion policy, and has done nothing else.
  pub reconcile_storage-Applied :
      (s : State F)
      → (reconcile_storage S K s).0 ≡ ok tt
      → Applied ByPolicy (pvc_objects (pvcs s.inst)) s (reconcile_storage S K s).1
  unfolding reconcile_storage ◌>>=◌
  reconcile_storage-Applied s h = apply_pvcs-Applied (pvcs s.inst) s h

  -- The objects in an option.
  abbrev pub listed : Option (Object F) → List (Object F)
  listed none = []
  listed (some obj) = obj ∷ []

  apply_if_some-Applied :
      (prefix : String) (o : Option (Object F)) (s : State F)
      → (apply_if_some S K prefix o s).0 ≡ ok tt
      → Applied Controlled (listed o) s (apply_if_some S K prefix o s).1
  unfolding apply_if_some
  apply_if_some-Applied prefix none s h = rw pure-state all_sent
  apply_if_some-Applied prefix (some obj) s h =
      let (n, e1, h1, t1) = bind-eq-ok _ _ s tt h in
      let (sent, t2) = wrapping-eq-ok _ _ s n e1 in
      let (refs, set, request) = apply_owned-Sent S K obj s n sent in
      then_sent refs set request (rw (t1, pure-state, t2) all_sent)

  -- The objects of the cache: those that the builders return.
  abbrev pub cache_objects : PaperlessInstance F → List (Object F)
  cache_objects i =
      listed (object_of S K deployment (valkey_deployment i))
      ++ (listed (object_of S K service (valkey_service i))
          ++ listed (object_of S K pvc (valkey_pvc i)))

  cache_steps :
      (d e p : Option (Object F)) (a b c : String) (s : State F)
      → ((apply_if_some S K a d >>= λ _. apply_if_some S K b e >>= λ _. apply_if_some S K c p) s).0
        ≡ ok tt
      → Applied Controlled
          (listed d ++ (listed e ++ listed p))
          s
          ((apply_if_some S K a d >>= λ _. apply_if_some S K b e >>= λ _. apply_if_some S K c p)
            s).1
  cache_steps d e p a b c s h =
      let (x, e1, h1, t1) = bind-eq-ok _ _ s tt h in
      let (y, e2, h2, t2) = bind-eq-ok _ _ _ tt h1 in
      rw (t1, t2)
        (Applied-append (apply_if_some-Applied a d s e1)
          (Applied-append (apply_if_some-Applied b e _ e2) (apply_if_some-Applied c p _ h2)))

  -- A cache step that succeeds has applied, in this order and each with the instance as its
  -- controller, the Deployment, the Service and the claim that the builders return, and has done
  -- nothing else.
  pub reconcile_cache-Applied :
      (s : State F)
      → (reconcile_cache S K s).0 ≡ ok tt
      → Applied Controlled (cache_objects s.inst) s (reconcile_cache S K s).1
  unfolding reconcile_cache ◌>>=◌
  reconcile_cache-Applied s h =
      cache_steps (object_of S K deployment (valkey_deployment s.inst))
        (object_of S K service (valkey_service s.inst)) (object_of S K pvc (valkey_pvc s.inst))
        "applying valkey deployment" "applying valkey service" "applying valkey PVC" s h

  -- With an external cache, the cache step makes no request and does not fail.
  pub reconcile_cache-unmanaged :
      (s : State F) → is_managed s.inst.spec.cache ≡ false → reconcile_cache S K s ≡ (ok tt, s)
  unfolding reconcile_cache apply_if_some ◌>>=◌ valkey_deployment valkey_service valkey_pvc
  reconcile_cache-unmanaged s external = rw external refl
