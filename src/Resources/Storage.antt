-- ===== src/Resources/Storage.antt =====
-- internal/resources/storage.go: the PersistentVolumeClaims.
pub mod Claims
use paperless_ngx_operator.Prelude.{String, Option, List, [], ◌∷◌, is_empty, if◌then◌else◌}
use paperless_ngx_operator.Kube.{Foreign}
use paperless_ngx_operator.Kube.Objects.{PersistentVolumeClaim}
use paperless_ngx_operator.Api.Types.{PaperlessInstance, VolumeSpec}
use paperless_ngx_operator.Api.Defaults.{
  size_or_default, default_data_size, default_media_size, default_consume_size, default_export_size,
}
use paperless_ngx_operator.Resources.Names.{
  common_labels, object_meta, data_pvc_name, media_pvc_name, consume_pvc_name, export_pvc_name,
}

-- `corev1.ReadWriteOnce`
abbrev pub default_access_modes : List String
default_access_modes = "ReadWriteOnce" ∷ []

module _ {F : Foreign} where
  unfoldable pub build_pvc :
      PaperlessInstance F
      → String
      → String
      → F.Quantity
      → List String
      → Option String
      → PersistentVolumeClaim F
  build_pvc inst name component size access_modes storage_class_name = record {
    metadata = object_meta inst name (common_labels inst component);
    access_modes = if is_empty access_modes then default_access_modes else access_modes;
    storage_class_name = storage_class_name;
    storage_request = size;
  }

  unfoldable pub volume_pvc :
      PaperlessInstance F → String → String → VolumeSpec F → String → PersistentVolumeClaim F
  unfolding build_pvc
  volume_pvc inst name component vol default_size =
      build_pvc inst name component (size_or_default vol default_size) vol.access_modes
        vol.storage_class_name

  unfoldable pub pvcs : PaperlessInstance F → List (PersistentVolumeClaim F)
  unfolding volume_pvc
  pvcs inst =
      volume_pvc inst (data_pvc_name inst) "data" storage.data_volume default_data_size
      ∷ volume_pvc inst (media_pvc_name inst) "media" storage.media default_media_size
      ∷ volume_pvc inst (consume_pvc_name inst) "consume" storage.consume default_consume_size
      ∷ volume_pvc inst (export_pvc_name inst) "export" storage.export default_export_size
      ∷ []
    where
      open (inst.spec) use {storage}
