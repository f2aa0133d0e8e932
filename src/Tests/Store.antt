-- ===== src/Tests/Store.antt =====
-- A concrete API server that stores Secrets, and the proof that it is one.
use paperless_ngx_operator.Prelude.{
  Bool, true, false, String, ◌==◌, ◌++◌, ◌&&◌, Option, none, some, List, [], ◌∷◌, plain, Result, ok,
  err, ◌≡◌, ◌≢◌, refl, sym, ◌∙◌, ap, arith, eq_iff, if◌then◌else◌, ◌>>=◌, Bool-cases, Option-cases,
  inl, inr,
}
use paperless_ngx_operator.Kube.Json.{
  string, object, array, nil, cons, Items, Fields, Json, end, field, at_path,
}
use paperless_ngx_operator.Kube.Objects.{ObjectKey, Secret}
use paperless_ngx_operator.Api.Types.{PaperlessInstance}
use paperless_ngx_operator.Controller.Client.{
  Server, Machinery, Request, History, get_instance, get_secret, get_crd, create_secret,
  apply_patch, merge_patch_secret, patch_status,
}
use paperless_ngx_operator.Controller.References.{owner_references_json}
use paperless_ngx_operator.Controller.Secrets.{key_of}
use paperless_ngx_operator.Controller.SecretStore.{View, Writes, IsStore}
use paperless_ngx_operator.Controller.SecretStore.Policy.{Controls}
use paperless_ngx_operator.Tests.Fixtures.{foreign, not_found, server, machinery}

abbrev same_key : ObjectKey → ObjectKey → Bool
same_key k j = (k.name == j.name) && (k.namespace == j.namespace)

same_key_refl : (k : ObjectKey) → same_key k k ≡ true
same_key_refl k = ground (arith, eq_iff k.name k.name, eq_iff k.namespace k.namespace)

same_key-false : (k j : ObjectKey) → k ≢ j → same_key k j ≡ false
same_key-false k j other = elim (Bool-cases (same_key k j)) [
  | inl same ↦ ground (arith, eq_iff k.name j.name, eq_iff k.namespace j.namespace)
  | inr differ ↦ differ
]

-- The owner references that the body of a patch sets: none or one, whose text is the body.
abbrev decoded : String → List String
decoded body = if body == "" then [] else body ∷ []

abbrev encoded : Items → Result String
encoded nil = ok ""
encoded (cons (object (field k (string s) end)) nil) = if s == "" then err not_found else ok s
encoded _ = err not_found

abbrev body_of : Option Json → Result String
body_of (some (array list)) = encoded list
body_of _ = ok "map"

abbrev patch_body : Fields → Result String
patch_body map = body_of (at_path "metadata" ("ownerReferences" ∷ []) map)

abbrev pub store_machinery : Machinery foreign
store_machinery = record (machinery) {
  marshal_map = patch_body;
  unmarshal = λ s. ok (field "uid" (string s) end);
}

abbrev with_owners : List String → Secret foreign → Secret foreign
with_owners refs s = record s { metadata = record (s.metadata) { owner_references = refs } }

-- A Secret as the server stores it at a key.
abbrev stored_at : ObjectKey → Secret foreign → Secret foreign
stored_at key s = record {
  metadata = record (s.metadata) { name = key.name; namespace = key.namespace };
  string_data = [];
  contents = s.string_data ++ s.contents;
}

abbrev or_else : {A : Type 0} → Option A → A → A
or_else (some a) b = a
or_else none b = b

some-injective : {A : Type 0} {a b : A} → some a ≡ some b → a ≡ b
some-injective {a = a} e = ap (λ o. or_else o a) e

abbrev value_or : {A : Type 0} → Result A → A → A
value_or (ok a) b = a
value_or (err e) b = b

pub ok-injective : {A : Type 0} {a b : A} → ok a ≡ ok b → a ≡ b
ok-injective {a = a} e = ap (λ r. value_or r a) e

abbrev patched_option : List String → Option (Secret foreign) → Option (Secret foreign)
patched_option refs none = none
patched_option refs (some s) = some (with_owners refs s)

-- What is stored after the requests.
abbrev pub replay : View foreign
replay [] key = none
replay (create_secret s ∷ h) key =
    let before = replay h key in
    elim before [
      | none ↦ if same_key (key_of s.metadata) key then some (stored_at key s) else none
      | some t ↦ some t
    ]
replay (merge_patch_secret k body ∷ h) key =
    let before = replay h key in
    if same_key k key then patched_option (decoded body) before else before
replay (q ∷ h) key = replay h key

stored_option-keyed :
    (test : Bool) (s t : Secret foreign) (key : ObjectKey)
    → (if test then some (stored_at key s) else none) ≡ some t
    → key_of t.metadata ≡ key
stored_option-keyed true s t key h =
    ap (λ (u : Secret foreign). key_of u.metadata)
      (sym (some-injective {a = stored_at key s} {b = t} h))
stored_option-keyed false s t key h = cc

patched_option-keyed :
    (refs : List String) (o : Option (Secret foreign)) (t : Secret foreign) (key : ObjectKey)
    → ((s : Secret foreign) → o ≡ some s → key_of s.metadata ≡ key)
    → patched_option refs o ≡ some t
    → key_of t.metadata ≡ key
patched_option-keyed refs none t key before h = cc
patched_option-keyed refs (some s) t key before h =
    ap (λ (u : Secret foreign). key_of u.metadata)
      (sym (some-injective {a = with_owners refs s} {b = t} h))
    ∙ before s refl

created_option-keyed :
    (test : Bool) (c : Secret foreign) (o : Option (Secret foreign)) (t : Secret foreign)
    (key : ObjectKey)
    → ((s : Secret foreign) → o ≡ some s → key_of s.metadata ≡ key)
    → elim o [ none ↦ if test then some (stored_at key c) else none | some s ↦ some s ] ≡ some t
    → key_of t.metadata ≡ key
created_option-keyed test c none t key before h = stored_option-keyed test c t key h
created_option-keyed test c (some s) t key before h = before t h

created_option-frame :
    (test : Bool) (c : Secret foreign) (o : Option (Secret foreign)) (key : ObjectKey)
    → test ≡ false
    → elim o [ none ↦ if test then some (stored_at key c) else none | some s ↦ some s ] ≡ o
created_option-frame test c none key is = rw is refl
created_option-frame test c (some s) key is = refl

pub replay-keyed :
    (h : History foreign) (key : ObjectKey) (s : Secret foreign)
    → replay h key ≡ some s
    → key_of s.metadata ≡ key
replay-keyed [] key s at = cc
replay-keyed (create_secret c ∷ h) key s at =
    created_option-keyed (same_key (key_of c.metadata) key) c (replay h key) s key
      (replay-keyed h key) at
replay-keyed (merge_patch_secret k body ∷ h) key s at = elim (Bool-cases (same_key k key)) [
  | inl same ↦
      patched_option-keyed (decoded body) (replay h key) s key (replay-keyed h key) (rw same at at)
  | inr other ↦ replay-keyed h key s (rw other at at)
]
replay-keyed (get_instance k ∷ h) key s at = replay-keyed h key s at
replay-keyed (get_secret k ∷ h) key s at = replay-keyed h key s at
replay-keyed (get_crd n ∷ h) key s at = replay-keyed h key s at
replay-keyed (apply_patch obj body ∷ h) key s at = replay-keyed h key s at
replay-keyed (patch_status a b ∷ h) key s at = replay-keyed h key s at

-- The server on which `inst` exists and the Secrets are what the requests have made of them.
abbrev pub store_server : PaperlessInstance foreign → Server foreign
store_server inst = record (server inst) {
  secret_answer = λ h key. elim (replay h key) [ none ↦ err not_found | some s ↦ ok s ];
  create_answer = λ h s. elim (replay h (key_of s.metadata)) [
    | none ↦ ok tt
    | some t ↦ err (plain "already exists")
  ];
}

one_ref :
    (r body : String) → (if r == "" then err not_found else ok r) ≡ ok body → decoded body ≡ r ∷ []
one_ref r body h = elim (Bool-cases (r == "")) [
  | inl empty ↦ absurd (cc (rw empty at h))
  | inr full ↦ rw (sym (ok-injective (rw full at h)), full) refl
]

-- No body encodes two references.
two_refs :
    (r t : String) (refs : List String) (rest : Result Items) (list : Items) (body : String)
    → ((rest >>= λ l. ok (cons (object (field "uid" (string t) end)) l)) >>= λ l.
        ok (cons (object (field "uid" (string r) end)) l))
      ≡ ok list
    → encoded list ≢ ok body
two_refs r t refs (err e) list body h b = cc
two_refs r t refs (ok l) list body h b = cc (ap encoded (ok-injective h) ∙ b)

single-refs :
    (refs : List String) (list : Items) (body : String)
    → owner_references_json store_machinery refs ≡ ok list
    → encoded list ≡ ok body
    → decoded body ≡ refs
unfolding owner_references_json
single-refs [] list body h b = ap decoded (sym (ok-injective (ap encoded (ok-injective h) ∙ b)))
single-refs (r ∷ []) list body h b = one_ref r body (ap encoded (ok-injective h) ∙ b)
single-refs (r ∷ t ∷ refs) list body h b =
    absurd (two_refs r t refs (owner_references_json store_machinery refs) list body h b)

replay-frame :
    (h : History foreign) (q : Request foreign) (key : ObjectKey)
    → ¬ Writes q key
    → replay (q ∷ h) key ≡ replay h key
replay-frame h (create_secret s) key other =
    created_option-frame _ s _ key (same_key-false _ _ other)
replay-frame h (merge_patch_secret k body) key other = rw (same_key-false k key other) refl
replay-frame h (get_instance k) key other = refl
replay-frame h (get_secret k) key other = refl
replay-frame h (get_crd n) key other = refl
replay-frame h (apply_patch obj body) key other = refl
replay-frame h (patch_status a b) key other = refl

pub store_server-IsStore :
    (inst : PaperlessInstance foreign) → IsStore (store_server inst) store_machinery replay
store_server-IsStore inst = record {
  found = λ h key s at. (rw (at, store_server) refl, replay-keyed h key s at);
  missing = λ h key at. (not_found, rw (at, store_server) refl, refl);
  created = λ h s answered. elim (Option-cases (replay h (key_of s.metadata))) [
    | inl lacks ↦ (
      stored_at (key_of s.metadata) s,
      rw (lacks, same_key_refl (key_of s.metadata)) refl,
      refl,
      refl,
    )
    | inr (t, at) ↦ absurd (cc (rw (at, store_server) at answered))
  ];
  kept = λ h s t key at. rw at refl;
  patched = λ h t key refs list map body at encoded sets marshalled answered. (
    with_owners refs t,
    rw (same_key_refl key, at, single-refs refs list body encoded (rw sets at marshalled)) refl,
    refl,
  );
  untouched = λ h t key map body at no_data no_string_data marshalled.
      (with_owners (decoded body) t, rw (same_key_refl key, at) refl, refl);
  frame = replay-frame;
}

pub store_machinery-Controls : Controls store_machinery
store_machinery-Controls = record {
  owned = λ i meta refs set. (i.uid, rw (sym (ok-injective set)) refl, refl);
  nobody = refl;
}
