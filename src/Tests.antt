-- ===== src/Tests.antt =====
-- Concrete inputs, and the theorems of the other modules at them.
mod Fixtures
mod Store
mod OfResources
mod OfController
mod OfStore
mod OfStartup
mod OfDeepCopy
mod OfWiring
mod OfRequests
mod OfProgress
