-- ===== src/Controller.antt =====
-- internal/controller: the reconciler. `Controller.Client` holds its view of the API server and
-- the monad of its methods; the other modules hold the methods, and below them their laws.
pub mod Client
pub mod Runs
pub mod Inversion
pub mod References
pub mod Conditions
pub mod Apply
pub mod Permitted
pub mod Secrets
pub mod Database
pub mod Steps
pub mod Reconcile
pub mod Retain
pub mod SecretStore
pub mod Role
pub mod Progress
pub mod Cost
pub mod Desired
