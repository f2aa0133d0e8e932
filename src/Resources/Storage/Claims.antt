-- ===== src/Resources/Storage/Claims.antt =====
-- What every PersistentVolumeClaim of an instance has, and the volumes that bind to them.
use paperless_ngx_operator.Prelude.{
  String, false, Option, none, some, List, [], ◌≡◌, arith, All, is_empty,
}
use paperless_ngx_operator.Kube.{Foreign}
use paperless_ngx_operator.Kube.Objects.{PersistentVolumeClaim}
use paperless_ngx_operator.Api.Types.{PaperlessInstance, VolumeSpec}
use paperless_ngx_operator.Resources.Names.{valkey_name}
use paperless_ngx_operator.Api.Defaults.{size_or_default-positive}
use paperless_ngx_operator.Resources.Storage.{build_pvc, volume_pvc, pvcs}
use paperless_ngx_operator.Resources.Cache.{valkey_pvc}

-- The sizes that the program falls back to are not zero.
pub record ArePositive (F : Foreign) : Type 0 where
  pub five : F.is_zero (F.must_parse "5Gi") ≡ false
  pub ten : F.is_zero (F.must_parse "10Gi") ≡ false
  pub twenty : F.is_zero (F.must_parse "20Gi") ≡ false
  pub one : F.is_zero (F.must_parse "1Gi") ≡ false

-- What the API server demands of a claim: an access mode, and a size other than zero.
pub record IsAcceptable {F : Foreign} (p : PersistentVolumeClaim F) : Type 0 where
  pub has_mode : is_empty p.access_modes ≡ false
  pub has_size : F.is_zero p.storage_request ≡ false

module _ {F : Foreign} (positive : ArePositive F) (inst : PaperlessInstance F) where
  build_pvc-IsAcceptable :
      (name component : String) (size : F.Quantity) (modes : List String) (class : Option String)
      → F.is_zero size ≡ false
      → IsAcceptable (build_pvc inst name component size modes class)
  unfolding build_pvc
  build_pvc-IsAcceptable name component size modes class h = ground arith

  volume_pvc-IsAcceptable :
      (name component : String) (vol : VolumeSpec F) (default_size : String)
      → F.is_zero (F.must_parse default_size) ≡ false
      → IsAcceptable (volume_pvc inst name component vol default_size)
  unfolding volume_pvc
  volume_pvc-IsAcceptable name component vol default_size h =
      build_pvc-IsAcceptable name component _ vol.access_modes _
        (size_or_default-positive vol default_size h)

  -- Whatever the spec, if the default sizes are positive, the four claims and that of a managed
  -- cache have an access mode and a size other than zero.
  pub pvcs-IsAcceptable :
      All IsAcceptable (pvcs inst)
      × ((p : PersistentVolumeClaim F) → valkey_pvc inst ≡ some p → IsAcceptable p)
  unfolding pvcs valkey_pvc
  pvcs-IsAcceptable = (
    (
      volume_pvc-IsAcceptable _ _ _ _ positive.five,
      (
        volume_pvc-IsAcceptable _ _ _ _ positive.twenty,
        (
          volume_pvc-IsAcceptable _ _ _ _ positive.five,
          (volume_pvc-IsAcceptable _ _ _ _ positive.ten, tt),
        ),
      ),
    ),
    λ p h. ground (
      arith,
      build_pvc-IsAcceptable (valkey_name inst) "cache" (F.must_parse "1Gi") [] none positive.one,
    ),
  )
