-- ===== src/Api/DeepCopy/Pointers/New.antt =====
-- A deep copy of a part of an instance has its value, and its cells are new
-- (api/v1alpha1/zz_generated.deepcopy.go).
use paperless_ngx_operator.Prelude.{ℕ, ◌≤◌, Option, ◌≡◌, refl, arith}
use paperless_ngx_operator.Kube.{Foreign}
use paperless_ngx_operator.Api.DeepCopy.Copier.{
  Ref, Fresh, Copier, Copies, Between, pointer, pointer-Copies,
}
use paperless_ngx_operator.Api.DeepCopy.Memory.{Memory, CopiesDeeply}
use paperless_ngx_operator.Api.DeepCopy.Parts.{
  image_spec, volume_spec, storage_spec, managed_database, database_spec, cache_spec, admin_spec,
  ocr_spec,
}
use paperless_ngx_operator.Api.DeepCopy.Spec.{spec, status}
use paperless_ngx_operator.Api.DeepCopy.Fresh.{
  image_spec-Copies, volume_spec-Copies, storage_spec-Copies, managed_database-Copies,
  database_spec-Copies, cache_spec-Copies, admin_spec-Copies, ocr_spec-Copies, spec-Copies,
  status-Copies,
}
use paperless_ngx_operator.Api.DeepCopy.Pointers.{
  external_database, deep_copy_external_database, deep_copy_image_spec, deep_copy_volume_spec,
  deep_copy_storage_spec, deep_copy_managed_database, deep_copy_database_spec, deep_copy_cache_spec,
  deep_copy_admin_spec, deep_copy_ocr_spec, deep_copy_spec, deep_copy_status,
}

-- The function gives, for every pointer and next free address, a pointer to the same value whose
-- cells are all new.
pub record CopiesToNew {V : Type 0} (c : Copier V)
    (f : Option (Ref c.Cells) → Fresh (Option (Ref c.Cells))) : Type 0 where
  pub same : (p : Option (Ref c.Cells)) (n : ℕ) → (pointer c).read (f p n).0 ≡ (pointer c).read p
  pub grows : (p : Option (Ref c.Cells)) (n : ℕ) → n ≤ (f p n).1
  pub fresh :
      (p : Option (Ref c.Cells)) (n : ℕ) → Between n (f p n).1 ((pointer c).addresses (f p n).0)

to_new : {V : Type 0} (c : Copier V) → Copies c → CopiesToNew c (pointer c).deep_copy_into
to_new c copies = record {
  same = λ p n. (pointer-Copies c copies p n).same;
  grows = λ p n. (pointer-Copies c copies p n).grows;
  fresh = λ p n. (pointer-Copies c copies p n).fresh;
}

external_database-Copies : Copies external_database
external_database-Copies x n = record { same = refl; grows = omega arith; fresh = tt }

module _ {F : Foreign} (M : Memory F) (laws : CopiesDeeply M) where
  -- Where the copies of the types of other packages are deep, so is `DeepCopy` of each type of the API
  -- below the instance: nil for nil, or else a pointer to the same value, all of whose cells are new.
  pub deep_copies-CopiesToNew :
      CopiesToNew external_database deep_copy_external_database
      × CopiesToNew (image_spec M) (deep_copy_image_spec M)
      × CopiesToNew (volume_spec M) (deep_copy_volume_spec M)
      × CopiesToNew (storage_spec M) (deep_copy_storage_spec M)
      × CopiesToNew (managed_database M) (deep_copy_managed_database M)
      × CopiesToNew (database_spec M) (deep_copy_database_spec M)
      × CopiesToNew (cache_spec M) (deep_copy_cache_spec M)
      × CopiesToNew (admin_spec M) (deep_copy_admin_spec M)
      × CopiesToNew (ocr_spec M) (deep_copy_ocr_spec M)
      × CopiesToNew (spec M) (deep_copy_spec M)
      × CopiesToNew (status M) (deep_copy_status M)
  unfolding deep_copy_external_database deep_copy_image_spec deep_copy_volume_spec
      deep_copy_storage_spec deep_copy_managed_database deep_copy_database_spec deep_copy_cache_spec
      deep_copy_admin_spec deep_copy_ocr_spec deep_copy_spec deep_copy_status
  deep_copies-CopiesToNew = (
    to_new _ external_database-Copies,
    to_new _ (image_spec-Copies M laws),
    to_new _ (volume_spec-Copies M laws),
    to_new _ (storage_spec-Copies M laws),
    to_new _ (managed_database-Copies M laws),
    to_new _ (database_spec-Copies M laws),
    to_new _ (cache_spec-Copies M laws),
    to_new _ (admin_spec-Copies M laws),
    to_new _ (ocr_spec-Copies M laws),
    to_new _ (spec-Copies M laws),
    to_new _ (status-Copies M laws),
  )
