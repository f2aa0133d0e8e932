-- ===== src/Api.antt =====
-- api/v1alpha1/paperlessinstance_types.go: the custom resource and the methods of its parts.
pub mod Types
pub mod Defaults
pub mod DeepCopy
