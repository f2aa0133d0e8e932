-- ===== src/Api/DeepCopy.antt =====
-- The deep copies of api/v1alpha1/zz_generated.deepcopy.go. Api.Types has an instance as a value;
-- here it is in memory, with the address of each cell that a pointer or a slice of it points to.
pub mod Copier
pub mod Memory
pub mod Parts
pub mod Spec
pub mod Fresh
pub mod Pointers
pub mod Instance
