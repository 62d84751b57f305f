-- ===== src/Controller.antt =====
-- The NodeENI reconciler (pkg/controller).
pub mod Sample
pub mod DeviceIndex
pub mod Cleanup
pub mod Calls
pub mod Coordination
pub mod Parallel
pub mod Coordinated
pub mod Updates
pub mod Subnets
pub mod Creation
pub mod Verify
pub mod Deletion
pub mod Stale
pub mod Reconcile
