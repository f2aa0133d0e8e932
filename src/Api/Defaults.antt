-- ===== src/Api/Defaults.antt =====
-- The methods of api/v1alpha1/paperlessinstance_types.go that resolve unset fields.
use paperless_ngx_operator.Prelude.{
  Bool, true, false, String, ◌<>◌, ◌==◌, Option, none, some, List, ◌≡◌, ◌↔◌, inl, inr, arith,
  eq_iff, if◌then◌else◌, not, Bool-cases,
}
use paperless_ngx_operator.Kube.{Foreign}
use paperless_ngx_operator.Kube.Objects.{Condition}
use paperless_ngx_operator.Api.Types.{
  ImageSpec, VolumeSpec, DatabaseSpec, CacheSpec, AdminSpec, PaperlessInstanceSpec,
  PaperlessInstance, DeletionPolicy, deletion_policy_retain, deletion_policy_delete,
}

abbrev pub default_repository : String
default_repository = "ghcr.io/paperless-ngx/paperless-ngx"

abbrev pub default_data_size : String
default_data_size = "5Gi"

abbrev pub default_media_size : String
default_media_size = "20Gi"

abbrev pub default_consume_size : String
default_consume_size = "5Gi"

abbrev pub default_export_size : String
default_export_size = "10Gi"

abbrev pub default_database_size : String
default_database_size = "10Gi"

-- `ImageSpec.Reference`
unfoldable pub reference : ImageSpec → String
reference i =
    let repo = if i.repository == "" then default_repository else i.repository in
    if not (i.digest == "") then repo <> ("@" <> i.digest) else repo <> (":" <> i.tag)

-- A pointer to a Boolean that defaults to true.
abbrev pub nil_or_true : Option Bool → Bool
nil_or_true none = true
nil_or_true (some b) = b

-- `CacheSpec.IsManaged`
unfoldable pub is_managed : CacheSpec → Bool
is_managed c = nil_or_true c.managed

-- `AdminSpec.IsEnabled`
unfoldable pub is_enabled : AdminSpec → Bool
is_enabled a = nil_or_true a.enabled

module _ {F : Foreign} where
  -- `VolumeSpec.SizeOrDefault`
  unfoldable pub size_or_default : VolumeSpec F → String → F.Quantity
  size_or_default v fallback = if F.is_zero v.size then F.must_parse fallback else v.size

  -- `DatabaseSpec.IsExternal`
  unfoldable pub is_external : DatabaseSpec F → Bool
  is_external d = elim d.external [ none ↦ false | some ext ↦ true ]

  -- `PaperlessInstanceSpec.DeletionPolicyOrDefault`
  unfoldable pub deletion_policy_or_default : PaperlessInstanceSpec F → DeletionPolicy
  deletion_policy_or_default s =
      if s.deletion_policy == "" then deletion_policy_retain else s.deletion_policy

  -- `PaperlessInstance.GetConditions`; a write through the pointer is `set_conditions`.
  abbrev pub get_conditions : PaperlessInstance F → List Condition
  get_conditions inst = inst.status.conditions

  abbrev pub set_conditions : PaperlessInstance F → List Condition → PaperlessInstance F
  set_conditions inst cs = record inst { status = record (inst.status) { conditions = cs } }

  -- No size that the API server would reject for being zero.
  pub size_or_default-positive :
      (v : VolumeSpec F) (fallback : String)
      → F.is_zero (F.must_parse fallback) ≡ false
      → F.is_zero (size_or_default v fallback) ≡ false
  unfolding size_or_default
  size_or_default-positive v fallback h = ground arith

  -- The policy is Delete exactly where the spec says Delete.
  pub deletion_policy-delete_iff :
      (s : PaperlessInstanceSpec F)
      → ((deletion_policy_or_default s == deletion_policy_delete) ≡ true)
        ↔ (s.deletion_policy ≡ deletion_policy_delete)
  unfolding deletion_policy_or_default
  deletion_policy-delete_iff s = elim (Bool-cases (s.deletion_policy == "")) [
    | inl unset ↦ rw unset (
        ground (
          arith,
          eq_iff s.deletion_policy "",
          eq_iff s.deletion_policy "Delete",
          eq_iff "Retain" "Delete",
          eq_iff "" "Delete",
        ))
    | inr set ↦ rw set (eq_iff s.deletion_policy "Delete")
  ]
