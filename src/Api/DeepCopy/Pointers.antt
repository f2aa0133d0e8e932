-- ===== src/Api/DeepCopy/Pointers.antt =====
-- The methods `DeepCopy` of the parts of an instance (api/v1alpha1/zz_generated.deepcopy.go): nil
-- for nil, or a new cell with the target copied into it.
pub mod New
use paperless_ngx_operator.Prelude.{Option, []}
use paperless_ngx_operator.Kube.{Foreign}
use paperless_ngx_operator.Api.Types.{ExternalDatabase}
use paperless_ngx_operator.Api.DeepCopy.Copier.{Ref, Fresh, pure, Copier, copy_pointer}
use paperless_ngx_operator.Api.DeepCopy.Memory.{Memory}
use paperless_ngx_operator.Api.DeepCopy.Parts.{
  image_spec, ImageSpecCells, volume_spec, VolumeSpecCells, storage_spec, StorageSpecCells,
  managed_database, ManagedDatabaseCells, database_spec, DatabaseSpecCells, cache_spec,
  CacheSpecCells, admin_spec, AdminSpecCells, ocr_spec, OcrSpecCells,
}
use paperless_ngx_operator.Api.DeepCopy.Spec.{spec, SpecCells, status, StatusCells}

-- `DeepCopyInto` of an `ExternalDatabase`, which holds no pointer.
abbrev pub copy_external_database : ExternalDatabase → Fresh ExternalDatabase
copy_external_database in_ =
    pure (record in_ { credentials_secret_ref = in_.credentials_secret_ref })

abbrev pub external_database : Copier ExternalDatabase
external_database = record {
  Cells = ExternalDatabase;
  read = λ x. x;
  addresses = λ x. [];
  deep_copy_into = copy_external_database;
}

unfoldable pub deep_copy_external_database :
    Option (Ref ExternalDatabase) → Fresh (Option (Ref ExternalDatabase))
deep_copy_external_database in_ = copy_pointer external_database in_

module _ {F : Foreign} (M : Memory F) where
  unfoldable pub deep_copy_image_spec :
      Option (Ref (ImageSpecCells M)) → Fresh (Option (Ref (ImageSpecCells M)))
  deep_copy_image_spec in_ = copy_pointer (image_spec M) in_

  unfoldable pub deep_copy_volume_spec :
      Option (Ref (VolumeSpecCells M)) → Fresh (Option (Ref (VolumeSpecCells M)))
  deep_copy_volume_spec in_ = copy_pointer (volume_spec M) in_

  unfoldable pub deep_copy_storage_spec :
      Option (Ref (StorageSpecCells M)) → Fresh (Option (Ref (StorageSpecCells M)))
  deep_copy_storage_spec in_ = copy_pointer (storage_spec M) in_

  unfoldable pub deep_copy_managed_database :
      Option (Ref (ManagedDatabaseCells M)) → Fresh (Option (Ref (ManagedDatabaseCells M)))
  deep_copy_managed_database in_ = copy_pointer (managed_database M) in_

  unfoldable pub deep_copy_database_spec :
      Option (Ref (DatabaseSpecCells M)) → Fresh (Option (Ref (DatabaseSpecCells M)))
  deep_copy_database_spec in_ = copy_pointer (database_spec M) in_

  unfoldable pub deep_copy_cache_spec :
      Option (Ref (CacheSpecCells M)) → Fresh (Option (Ref (CacheSpecCells M)))
  deep_copy_cache_spec in_ = copy_pointer (cache_spec M) in_

  unfoldable pub deep_copy_admin_spec :
      Option (Ref (AdminSpecCells M)) → Fresh (Option (Ref (AdminSpecCells M)))
  deep_copy_admin_spec in_ = copy_pointer (admin_spec M) in_

  unfoldable pub deep_copy_ocr_spec :
      Option (Ref (OcrSpecCells M)) → Fresh (Option (Ref (OcrSpecCells M)))
  deep_copy_ocr_spec in_ = copy_pointer (ocr_spec M) in_

  unfoldable pub deep_copy_spec : Option (Ref (SpecCells M)) → Fresh (Option (Ref (SpecCells M)))
  deep_copy_spec in_ = copy_pointer (spec M) in_

  unfoldable pub deep_copy_status :
      Option (Ref (StatusCells M)) → Fresh (Option (Ref (StatusCells M)))
  deep_copy_status in_ = copy_pointer (status M) in_
