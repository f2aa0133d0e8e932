-- ===== src/Controller/SecretStore.antt =====
-- What the reconciler relies on of an API server on which nobody else writes its Secrets: the
-- Secrets that are stored after a history, and how each request changes them.
pub mod Stable
pub mod Policy
pub mod Ensured
pub mod Settled
pub mod Quiet
use paperless_ngx_operator.Prelude.{
  String, ◌==◌, ◌++◌, Option, none, some, List, [], Error, Result, ok, err, Bool, true, false, ◌∷◌,
  ◌≡◌, ◌≢◌,
}
use paperless_ngx_operator.Kube.{Foreign}
use paperless_ngx_operator.Kube.Json.{Items, Fields, array, at_path}
use paperless_ngx_operator.Kube.Objects.{ObjectKey, ObjectMeta, Secret}
use paperless_ngx_operator.Api.Types.{PaperlessInstance}
use paperless_ngx_operator.Controller.Client.{
  Server, Machinery, Request, History, create_secret, merge_patch_secret, is_not_found,
}
use paperless_ngx_operator.Controller.References.{owner_references_json}
use paperless_ngx_operator.Controller.Secrets.{key_of}

module _ {F : Foreign} where
  -- A request that may change the Secret at a key.
  abbrev pub Writes : Request F → ObjectKey → Type 0
  Writes (create_secret s) key = key_of s.metadata ≡ key
  Writes (merge_patch_secret k body) key = k ≡ key
  Writes _ key = ⊥

-- The Secret that is stored at a key after a history.
abbrev pub View : Foreign → Type 0
View F = History F → ObjectKey → Option (Secret F)

-- A stored Secret has the data of another.
abbrev pub SameData : {F : Foreign} → Secret F → Secret F → Type 0
SameData s t = t.contents ≡ s.contents

module _ {F : Foreign} (S : Server F) (K : Machinery F) (view : View F) where
  pub record IsStore : Type 0 where
    -- A Get returns what is stored, or says that nothing is.
    pub found :
        (h : History F) (key : ObjectKey) (s : Secret F)
        → view h key ≡ some s
        → (S.secret_answer h key ≡ ok s) × (key_of s.metadata ≡ key)
    pub missing :
        (h : History F) (key : ObjectKey)
        → view h key ≡ none
        → (e : Error) × (S.secret_answer h key ≡ err e) × (is_not_found e ≡ true)
    -- A Create that succeeds stores the Secret, with its `stringData` in front of its `data`; no
    -- Create changes a Secret that exists.
    pub created :
        (h : History F) (s : Secret F)
        → S.create_answer h s ≡ ok tt
        → (t : Secret F) × (view (create_secret s ∷ h) (key_of s.metadata) ≡ some t)
          × (t.contents ≡ s.string_data ++ s.contents)
          × (t.metadata.owner_references ≡ s.metadata.owner_references)
    pub kept :
        (h : History F) (s t : Secret F) (key : ObjectKey)
        → view h key ≡ some t
        → view (create_secret s ∷ h) key ≡ some t
    -- A merge patch that sets the owner references sets these, if it succeeds; and one without
    -- the fields `data` and `stringData` never changes the data.
    pub patched :
        (h : History F) (t : Secret F) (key : ObjectKey) (refs : List F.OwnerReference)
        (list : Items) (map : Fields) (body : String)
        → view h key ≡ some t
        → owner_references_json K refs ≡ ok list
        → at_path "metadata" ("ownerReferences" ∷ []) map ≡ some (array list)
        → K.marshal_map map ≡ ok body
        → S.merge_answer h key body ≡ ok tt
        → (u : Secret F) × (view (merge_patch_secret key body ∷ h) key ≡ some u)
          × (u.metadata.owner_references ≡ refs)
    pub untouched :
        (h : History F) (t : Secret F) (key : ObjectKey) (map : Fields) (body : String)
        → view h key ≡ some t
        → at_path "data" [] map ≡ none
        → at_path "stringData" [] map ≡ none
        → K.marshal_map map ≡ ok body
        → (u : Secret F) × (view (merge_patch_secret key body ∷ h) key ≡ some u) × SameData t u
    -- Nothing else changes a Secret.
    pub frame :
        (h : History F) (q : Request F) (key : ObjectKey)
        → ¬ Writes q key
        → view (q ∷ h) key ≡ view h key
