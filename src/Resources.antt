-- ===== src/Resources.antt =====
-- internal/resources: the builders of the Kubernetes objects that an instance owns. Each is a
-- function of the instance; those that generate a value take the source of randomness too.
pub mod Names
pub mod Storage
pub mod Secrets
pub mod Cache
pub mod Database
pub mod Env
pub mod Workload
