-- ===== src/ClaimReconciler.antt =====
-- internal/controller/serverclaim_controller.go: the controller that binds claims to servers.
pub mod Select
pub mod Claim
pub mod Reconcile
pub mod SelectLaws
pub mod ReferenceLaws
pub mod Respects
pub mod Safety
pub mod Phases
mod Binding
pub mod Order
pub mod Cleanup
