-- ===== src/Controller/Desired/Ensure.antt =====
-- A cluster into which objects are put: those of distinct places stay, and the other places are
-- left alone.
use paperless_ngx_operator.Prelude.{
  true, false, All, List, [], ◌∷◌, map, some, ◌≡◌, ◌≢◌, refl, sym, ◌∙◌, arith, eq_iff, eq_refl,
}
use paperless_ngx_operator.Kube.{Foreign}
use paperless_ngx_operator.Kube.Objects.{Object}
use paperless_ngx_operator.Resources.Names.Distinct.{Distinct}
use paperless_ngx_operator.Controller.Desired.{Slot, slot_eq, slot_of, Cluster, put}

-- The cluster with the objects put into it in their order.
unfoldable pub ensure : {F : Foreign} → List (Object F) → Cluster F → Cluster F
ensure [] cluster slot = cluster slot
ensure (obj ∷ objs) cluster slot = ensure objs (put obj cluster) slot

slot_eq_refl : (a : Slot) → slot_eq a a ≡ true
slot_eq_refl a = rw (eq_refl a.kind, eq_refl a.name, eq_refl a.namespace) refl

slot_eq_of_ne : (a b : Slot) → a ≢ b → slot_eq a b ≡ false
slot_eq_of_ne a b differ =
    ground (arith, eq_iff a.kind b.kind, eq_iff a.name b.name, eq_iff a.namespace b.namespace)

module _ {F : Foreign} where
  pub put-other :
      (obj : Object F) (c : Cluster F) (slot : Slot) → slot_of obj ≢ slot → put obj c slot ≡ c slot
  put-other obj c slot differ = rw (slot_eq_of_ne (slot_of obj) slot differ) refl

  put_self : (obj : Object F) (c : Cluster F) → put obj c (slot_of obj) ≡ some obj
  put_self obj c = rw (slot_eq_refl (slot_of obj)) refl

  pub ensure-other :
      (objs : List (Object F)) (c : Cluster F) (slot : Slot)
      → All (λ obj. slot_of obj ≢ slot) objs
      → ensure objs c slot ≡ c slot
  unfolding ensure
  ensure-other [] c slot differ = refl
  ensure-other (obj ∷ objs) c slot differ =
      ensure-other objs (put obj c) slot differ.1 ∙ put-other obj c slot differ.0

  others :
      (slot : Slot) (objs : List (Object F))
      → All (λ y. slot ≢ y) (map slot_of objs)
      → All (λ obj. slot_of obj ≢ slot) objs
  others slot [] differ = tt
  others slot (obj ∷ objs) differ = (λ e. differ.0 (sym e), others slot objs differ.1)

  pub ensure-held :
      (objs : List (Object F)) (c : Cluster F)
      → Distinct (map slot_of objs)
      → All (λ obj. ensure objs c (slot_of obj) ≡ some obj) objs
  unfolding ensure
  ensure-held [] c distinct = tt
  ensure-held (obj ∷ objs) c distinct = (
    ensure-other objs (put obj c) (slot_of obj) (others (slot_of obj) objs distinct.0)
        ∙ put_self obj c,
    ensure-held objs (put obj c) distinct.1,
  )
