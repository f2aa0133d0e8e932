-- ===== src/Tests/OfRequests.antt =====
-- The theorems of `Controller` about single requests at concrete inputs.
use paperless_ngx_operator.Prelude.{
  pos, zero, suc, some, Bool-cases, inl, inr, String, ◌==◌, none, plain, ◌&&◌, arith, eq_iff, [],
  ◌∷◌, Result, ok, err, ◌≡◌, ◌≢◌, refl, if◌then◌else◌,
}
use paperless_ngx_operator.Kube.Json.{
  Json, Fields, nil, cons, end, field, null, bool, number, string, array, object,
}
use paperless_ngx_operator.Kube.Objects.{Object, pvc}
use paperless_ngx_operator.Api.Defaults.{deletion_policy_or_default}
use paperless_ngx_operator.Kube.Json.{lookup, insert}
use paperless_ngx_operator.Kube.Json.Same.{Same, Same-refl}
use paperless_ngx_operator.Tests.Store.{ok-injective}
use paperless_ngx_operator.Controller.Client.{Machinery, get_secret, ◌>>=◌}
use paperless_ngx_operator.Controller.References.{
  is_controlled_by, owner_references_json, set_explicit_owner_references, with_references,
}
use paperless_ngx_operator.Controller.References.Explicit.{
  RoundTrips, IsExplicit, set_explicit_owner_references-IsExplicit,
}
use paperless_ngx_operator.Controller.Apply.{apply, apply_stateful}
use paperless_ngx_operator.Controller.Secrets.{patch_ownership, reconcile_secret_ownership}
use paperless_ngx_operator.Controller.Secrets.Ownership.{
  Adopted, reconcile_secret_ownership-Adopted,
}
use paperless_ngx_operator.Controller.Database.{reconcile_external_database}
use paperless_ngx_operator.Controller.Database.Branches.{
  Checked, credentials_key, reconcile_external_database-Checked,
}
use paperless_ngx_operator.Controller.Runs.{Grows}
use paperless_ngx_operator.Controller.Reconcile.{reconcile}
use paperless_ngx_operator.Controller.Retain.{Retained}
use paperless_ngx_operator.Controller.Retain.Whole.{reconcile-Retained}
use paperless_ngx_operator.Tests.Fixtures.{
  key, sets, foreign, deleted, retained, outside, external, server, machinery, begin, owned_secret,
  not_found,
}

abbrev claim : Object foreign
claim = pvc (record {
  metadata = record { name = "p-data"; namespace = "docs"; labels = []; owner_references = [] };
  access_modes = "ReadWriteOnce" ∷ [];
  storage_class_name = none;
  storage_request = 1;
})

claim_ok : (apply_stateful (server deleted) machinery claim (begin deleted)).0 ≡ ok (pos 1)
unfolding ◌>>=◌ apply_stateful apply deletion_policy_or_default set_explicit_owner_references
    owner_references_json
claim_ok = refl

-- Under the default policy a Secret that is still owned is released.
released_ok :
    (reconcile_secret_ownership (server retained) machinery owned_secret (begin retained)).0 ≡ ok tt
unfolding ◌>>=◌ reconcile_secret_ownership patch_ownership is_controlled_by
    deletion_policy_or_default owner_references_json
released_ok = refl

reconcile_secret_ownership-Adopted_example :
    Adopted
      (server retained)
      machinery
      owned_secret
      (begin retained)
      (reconcile_secret_ownership (server retained) machinery owned_secret (begin retained)).1
reconcile_secret_ownership-Adopted_example =
    reconcile_secret_ownership-Adopted (server retained) machinery owned_secret (begin retained)
      released_ok

reconcile_external_database-Checked_example :
    Checked
      (server outside)
      machinery
      sets
      (err not_found)
      (reconcile_external_database (server outside) machinery external (begin outside)).0
      (reconcile_external_database (server outside) machinery external (begin outside)).1
    × ((reconcile_external_database (server outside) machinery external (begin outside)).1.history
        ≡ get_secret (credentials_key (server outside) machinery sets external (begin outside))
          ∷ [])
reconcile_external_database-Checked_example =
    reconcile_external_database-Checked (server outside) machinery sets external (begin outside)

-- An encoding as its name for an object whose metadata has a name and an empty list of owner
-- references, in either order; decoding sorts the two.
abbrev two_fields : String → Json → String → Json → Result String
two_fields j (string s) i (array nil) =
    if (j == "name") && (i == "ownerReferences") then ok s else err (plain "unsupported")
two_fields j (array nil) i (string s) =
    if (j == "ownerReferences") && (i == "name") then ok s else err (plain "unsupported")
two_fields j v i w = err (plain "unsupported")

abbrev encode_metadata : Json → Result String
encode_metadata (object (field j v (field i w end))) = two_fields j v i w
encode_metadata m = err (plain "unsupported")

abbrev encode_map : Fields → Result String
encode_map (field k v end) =
    if k == "metadata" then encode_metadata v else err (plain "unsupported")
encode_map m = err (plain "unsupported")

abbrev sorted_metadata : String → Fields
sorted_metadata s = field "name" (string s) (field "ownerReferences" (array nil) end)

abbrev decode_map : String → Result Fields
decode_map s = ok (field "metadata" (object (sorted_metadata s)) end)

abbrev exact_machinery : Machinery foreign
exact_machinery = record machinery { marshal_map = encode_map; unmarshal = decode_map }

-- What encodes to a text has the lookups of the sorted fields.
abbrev LooksUp : String → Fields → Type 0
LooksUp d m = (k : String) → lookup k m ≡ lookup k (sorted_metadata d)

lookup-swapped :
    (s : String) → LooksUp s (field "ownerReferences" (array nil) (field "name" (string s) end))
unfolding lookup
lookup-swapped s k = elim (Bool-cases ("name" == k)) [
  | inl is ↦ rw (← (eq_iff "name" k).0 is) refl
  | inr other ↦ rw other refl
]

two_fields-LooksUp :
    (j i d : String) (v w : Json)
    → two_fields j v i w ≡ ok d
    → LooksUp d (field j v (field i w end))
two_fields-LooksUp j i d (string s) (array nil) h =
    elim (Bool-cases ((j == "name") && (i == "ownerReferences"))) [
      | inl is ↦
          let name : j ≡ "name" = ground (arith, eq_iff j "name") in
          let refs : i ≡ "ownerReferences" = ground (arith, eq_iff i "ownerReferences") in
          let text : s ≡ d = ok-injective (rw is at h) in λ k. rw (name, refs, text) refl
      | inr other ↦ absurd (cc (rw other at h))
    ]
two_fields-LooksUp j i d (array nil) (string s) h =
    elim (Bool-cases ((j == "ownerReferences") && (i == "name"))) [
      | inl is ↦
          let refs : j ≡ "ownerReferences" = ground (arith, eq_iff j "ownerReferences") in
          let name : i ≡ "name" = ground (arith, eq_iff i "name") in
          let text : s ≡ d = ok-injective (rw is at h) in
          λ k. rw (name, refs, text) (lookup-swapped d k)
      | inr other ↦ absurd (cc (rw other at h))
    ]
two_fields-LooksUp j i d null w h = absurd (cc)
two_fields-LooksUp j i d (bool b) w h = absurd (cc)
two_fields-LooksUp j i d (number n) w h = absurd (cc)
two_fields-LooksUp j i d (object m) w h = absurd (cc)
two_fields-LooksUp j i d (array (cons a l)) w h = absurd (cc)
two_fields-LooksUp j i d (string s) null h = absurd (cc)
two_fields-LooksUp j i d (string s) (bool b) h = absurd (cc)
two_fields-LooksUp j i d (string s) (number n) h = absurd (cc)
two_fields-LooksUp j i d (string s) (string t) h = absurd (cc)
two_fields-LooksUp j i d (string s) (object m) h = absurd (cc)
two_fields-LooksUp j i d (string s) (array (cons a l)) h = absurd (cc)
two_fields-LooksUp j i d (array nil) null h = absurd (cc)
two_fields-LooksUp j i d (array nil) (bool b) h = absurd (cc)
two_fields-LooksUp j i d (array nil) (number n) h = absurd (cc)
two_fields-LooksUp j i d (array nil) (array l) h = absurd (cc)
two_fields-LooksUp j i d (array nil) (object m) h = absurd (cc)

encode_metadata-LooksUp :
    (v : Json) (d : String) → encode_metadata v ≡ ok d → (m : Fields) × (v ≡ object m) × LooksUp d m
encode_metadata-LooksUp (object (field j v (field i w end))) d h =
    (_, refl, two_fields-LooksUp j i d v w h)
encode_metadata-LooksUp (object end) d h = absurd (cc)
encode_metadata-LooksUp (object (field j v end)) d h = absurd (cc)
encode_metadata-LooksUp (object (field j v (field i w (field l x m)))) d h = absurd (cc)
encode_metadata-LooksUp null d h = absurd (cc)
encode_metadata-LooksUp (bool b) d h = absurd (cc)
encode_metadata-LooksUp (number n) d h = absurd (cc)
encode_metadata-LooksUp (string s) d h = absurd (cc)
encode_metadata-LooksUp (array l) d h = absurd (cc)

Same-LooksUp :
    (d : String) (m : Fields)
    → LooksUp d m
    → Same (some (object m)) (some (object (sorted_metadata d)))
Same-LooksUp d m is zero = tt
Same-LooksUp d m is (suc n) = λ k. rw (is k) (Same-refl (lookup k (sorted_metadata d)) n)

rounds : RoundTrips exact_machinery
unfolding lookup
rounds end d h = absurd (cc)
rounds (field k v (field j w m)) d h = absurd (cc)
rounds (field k v end) d h = elim (Bool-cases (k == "metadata")) [
  | inl is ↦
      let (m, inner, looks) = encode_metadata-LooksUp v d (rw is at h) in
      let key_ : k ≡ "metadata" = (eq_iff k "metadata").0 is in
      (
        _,
        refl,
        λ l. elim (Bool-cases ("metadata" == l)) [
          | inl found ↦ rw (key_, inner, found) (Same-LooksUp d m looks)
          | inr missing ↦ rw (key_, missing) (Same-refl none)
        ],
      )
  | inr other ↦ absurd (cc (rw other at h))
]

-- An object without owners gets an explicit empty list, after its name or before it.
set_explicit_owner_references-IsExplicit_example :
    IsExplicit exact_machinery rounds [] (field "metadata" (object (sorted_metadata "p")) end) "p"
unfolding set_explicit_owner_references with_references owner_references_json insert lookup
set_explicit_owner_references-IsExplicit_example =
    set_explicit_owner_references-IsExplicit exact_machinery rounds "p" "p" []
      (field "metadata" (object (sorted_metadata "p")) end) refl refl

retained_policy : retained.spec.deletion_policy ≢ "Delete"
retained_policy e = ground (arith, eq_iff "" "Delete")

reconcile-Retained_example :
    Grows
      (Retained (server retained) machinery retained)
      []
      (reconcile (server retained) machinery key []).1
reconcile-Retained_example =
    reconcile-Retained (server retained) machinery retained key [] retained_policy refl
