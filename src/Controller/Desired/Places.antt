-- ===== src/Controller/Desired/Places.antt =====
-- Requests that put objects into the cluster, one after the other, and nothing else.
use paperless_ngx_operator.Prelude.{ℤ, String, List, [], ◌∷◌, ◌++◌, ok, ◌≡◌, refl, ◌∙◌, ap, fun_ext}
use paperless_ngx_operator.Kube.{Foreign}
use paperless_ngx_operator.Kube.Objects.{Object}
use paperless_ngx_operator.Api.Types.{PaperlessInstance}
use paperless_ngx_operator.Controller.Client.{
  Server, Machinery, Request, History, get_instance, get_secret, get_crd, create_secret,
  apply_patch, merge_patch_secret, patch_status,
}
use paperless_ngx_operator.Controller.Runs.{Grows, same, more, Grows-trans}
use paperless_ngx_operator.Controller.Desired.Ensure.{ensure}
use paperless_ngx_operator.Controller.Desired.{
  Want, Slot, put, cluster_of, OwnedAs, AllOwned, nothing, also,
}

-- A request that applies nothing.
abbrev pub NoApply : {F : Foreign} → Request F → History F → Type 0
NoApply (apply_patch obj body) h = ⊥
NoApply (get_instance key) h = Unit
NoApply (get_secret key) h = Unit
NoApply (get_crd name) h = Unit
NoApply (create_secret s) h = Unit
NoApply (merge_patch_secret key body) h = Unit
NoApply (patch_status sent base) h = Unit

module _ {F : Foreign} (S : Server F) (K : Machinery F) (i : PaperlessInstance F) where
  -- From one history to another, the wanted objects are applied in their order.
  pub data Places : List (Want F) → List (Object F) → History F → History F → Type 0 where
    settled : {h k : History F} → Grows NoApply h k → Places [] [] h k
    placed :
        {w : Want F} {ws : List (Want F)} {obj : Object F} {objs : List (Object F)}
        {h k l : History F} {n : ℤ}
        → (body : String) → Grows NoApply h k
        → OwnedAs K i w obj
        → S.apply_answer k obj body ≡ ok n
        → Places ws objs (apply_patch obj body ∷ k) l
        → Places (w ∷ ws) (obj ∷ objs) h l

  pub Places-after :
      {ws : List (Want F)} {objs : List (Object F)} {h k l : History F}
      → Grows NoApply h k
      → Places ws objs k l
      → Places ws objs h l
  Places-after g (settled g') = settled (Grows-trans g g')
  Places-after g (placed body g' owned answered rest) =
      placed body (Grows-trans g g') owned answered rest

  pub Places-append :
      {ws vs : List (Want F)} {objs others : List (Object F)} {h k l : History F}
      → Places ws objs h k
      → Places vs others k l
      → Places (ws ++ vs) (objs ++ others) h l
  Places-append (settled g) rest = Places-after g rest
  Places-append (placed body g owned answered p) rest =
      placed body g owned answered (Places-append p rest)

  pub Places-AllOwned :
      {ws : List (Want F)} {objs : List (Object F)} {h k : History F}
      → Places ws objs h k
      → AllOwned K i ws objs
  Places-AllOwned (settled g) = nothing
  Places-AllOwned (placed body g owned answered p) = also owned (Places-AllOwned p)

module _ {F : Foreign} (S : Server F) where
  cluster_of-NoApply :
      (q : Request F) (h : History F) (slot : Slot)
      → NoApply q h
      → cluster_of S (q ∷ h) slot ≡ cluster_of S h slot
  unfolding cluster_of
  cluster_of-NoApply (apply_patch obj body) h slot p = absurd p
  cluster_of-NoApply (get_instance key) h slot p = refl
  cluster_of-NoApply (get_secret key) h slot p = refl
  cluster_of-NoApply (get_crd name) h slot p = refl
  cluster_of-NoApply (create_secret s) h slot p = refl
  cluster_of-NoApply (merge_patch_secret key body) h slot p = refl
  cluster_of-NoApply (patch_status sent base) h slot p = refl

  pub cluster_of-Grows : {h k : History F} → Grows NoApply h k → cluster_of S k ≡ cluster_of S h
  cluster_of-Grows same = refl
  cluster_of-Grows (more q g p) =
      fun_ext (λ slot. cluster_of-NoApply q _ slot p) ∙ cluster_of-Grows g

  cluster_of-apply :
      (obj : Object F) (body : String) (h : History F) (n : ℤ)
      → S.apply_answer h obj body ≡ ok n
      → cluster_of S (apply_patch obj body ∷ h) ≡ put obj (cluster_of S h)
  unfolding cluster_of
  cluster_of-apply obj body h n answered = fun_ext λ slot. rw answered refl

  -- The cluster after the requests is the one before them, with the objects put into it.
  pub cluster_of-Places :
      {K : Machinery F} {i : PaperlessInstance F} {ws : List (Want F)} {objs : List (Object F)}
      {h k : History F}
      → Places S K i ws objs h k
      → cluster_of S k ≡ ensure objs (cluster_of S h)
  unfolding ensure
  cluster_of-Places (settled g) = cluster_of-Grows g
  cluster_of-Places (placed {obj = obj} {objs = objs} body g owned answered p) =
      cluster_of-Places p
      ∙ ap (ensure objs)
          (cluster_of-apply obj body _ _ answered ∙ ap (put obj) (cluster_of-Grows g))
