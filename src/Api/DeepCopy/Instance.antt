-- ===== src/Api/DeepCopy/Instance.antt =====
-- `PaperlessInstance` and `PaperlessInstanceList` in memory, with their `DeepCopy` and
-- `DeepCopyObject` (api/v1alpha1/zz_generated.deepcopy.go).
pub mod Apart
use paperless_ngx_operator.Prelude.{ℕ, Option, none, some, List, ◌++◌}
use paperless_ngx_operator.Kube.{Foreign}
use paperless_ngx_operator.Api.Types.{
  PaperlessInstance, PaperlessInstanceSpec, PaperlessInstanceStatus,
}
use paperless_ngx_operator.Api.DeepCopy.Copier.{
  Ref, Fresh, pure, ◌>>=◌, Copier, slice, pointer, copy_pointer,
}
use paperless_ngx_operator.Api.DeepCopy.Memory.{Memory, TypeMeta, Meta, ListMeta}
use paperless_ngx_operator.Api.DeepCopy.Spec.{
  SpecCells, StatusCells, copy_spec, read_spec, spec_addresses, copy_status, read_status,
  status_addresses,
}

module _ {F : Foreign} (M : Memory F) where
  pub record InstanceCells : Type 0 where
    pub type_meta : TypeMeta
    pub object_meta : M.object_meta.Cells
    pub spec : SpecCells M
    pub status : StatusCells M

  unfoldable pub copy_instance : InstanceCells → Fresh InstanceCells
  copy_instance in_ = do
    object_meta ← M.object_meta.deep_copy_into in_.object_meta
    spec ← copy_spec M in_.spec
    status ← copy_status M in_.status
    pure (record in_ {
      type_meta = in_.type_meta;
      object_meta = object_meta;
      spec = spec;
      status = status;
    })

  -- The instance with its metadata, spec and status.
  abbrev pub instance_of :
      Meta → PaperlessInstanceSpec F → PaperlessInstanceStatus → PaperlessInstance F
  instance_of meta spec status = record {
    name = meta.name;
    namespace = meta.namespace;
    uid = meta.uid;
    generation = meta.generation;
    spec = spec;
    status = status;
  }

  -- The value also has the type's name, which the other modules leave out.
  unfoldable pub read_instance : InstanceCells → TypeMeta × PaperlessInstance F
  read_instance x = (
    x.type_meta,
    instance_of (M.object_meta.read x.object_meta) (read_spec M x.spec) (read_status M x.status),
  )

  unfoldable pub instance_addresses : InstanceCells → List ℕ
  instance_addresses x =
      M.object_meta.addresses x.object_meta
      ++ (spec_addresses M x.spec ++ status_addresses M x.status)

  abbrev pub paperless_instance : Copier (TypeMeta × PaperlessInstance F)
  paperless_instance = record {
    Cells = InstanceCells;
    read = read_instance;
    addresses = instance_addresses;
    deep_copy_into = copy_instance;
  }

  pub record InstanceListCells : Type 0 where
    pub type_meta : TypeMeta
    pub list_meta : M.list_meta.Cells
    pub items : (slice paperless_instance).Cells

  unfoldable pub copy_instance_list : InstanceListCells → Fresh InstanceListCells
  copy_instance_list in_ = do
    list_meta ← M.list_meta.deep_copy_into in_.list_meta
    items ← (slice paperless_instance).deep_copy_into in_.items
    pure (record in_ { type_meta = in_.type_meta; list_meta = list_meta; items = items })

  unfoldable pub read_instance_list :
      InstanceListCells → TypeMeta × (ListMeta × List (TypeMeta × PaperlessInstance F))
  read_instance_list x =
      (x.type_meta, (M.list_meta.read x.list_meta, (slice paperless_instance).read x.items))

  unfoldable pub instance_list_addresses : InstanceListCells → List ℕ
  instance_list_addresses x =
      M.list_meta.addresses x.list_meta ++ (slice paperless_instance).addresses x.items

  abbrev pub paperless_instance_list :
      Copier (TypeMeta × (ListMeta × List (TypeMeta × PaperlessInstance F)))
  paperless_instance_list = record {
    Cells = InstanceListCells;
    read = read_instance_list;
    addresses = instance_list_addresses;
    deep_copy_into = copy_instance_list;
  }

  -- `DeepCopy` of a pointer: nil, or a new cell with the target copied into it.
  abbrev pub deep_copy : Option (Ref InstanceCells) → Fresh (Option (Ref InstanceCells))
  deep_copy in_ = copy_pointer paperless_instance in_

  abbrev pub deep_copy_list :
      Option (Ref InstanceListCells) → Fresh (Option (Ref InstanceListCells))
  deep_copy_list in_ = copy_pointer paperless_instance_list in_

  -- A `runtime.Object` of this package, or nil.
  pub data RuntimeObject : Type 0 where
    nil_object : RuntimeObject
    instance_object : Ref InstanceCells → RuntimeObject
    list_object : Ref InstanceListCells → RuntimeObject

  abbrev as_object : Option (Ref InstanceCells) → RuntimeObject
  as_object none = nil_object
  as_object (some c) = instance_object c

  abbrev as_list_object : Option (Ref InstanceListCells) → RuntimeObject
  as_list_object none = nil_object
  as_list_object (some c) = list_object c

  -- `DeepCopyObject` of either type.
  abbrev pub deep_copy_instance_object : Option (Ref InstanceCells) → Fresh RuntimeObject
  deep_copy_instance_object in_ = do c ← deep_copy in_; pure (as_object c)

  abbrev pub deep_copy_list_object : Option (Ref InstanceListCells) → Fresh RuntimeObject
  deep_copy_list_object in_ = do c ← deep_copy_list in_; pure (as_list_object c)

  -- A call of `DeepCopyObject`, by the type that the interface holds; nil stays nil.
  unfoldable pub deep_copy_object : RuntimeObject → Fresh RuntimeObject
  deep_copy_object nil_object = pure nil_object
  deep_copy_object (instance_object in_) = deep_copy_instance_object (some in_)
  deep_copy_object (list_object in_) = deep_copy_list_object (some in_)
