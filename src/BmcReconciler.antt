-- ===== src/BmcReconciler.antt =====
-- internal/controller/bmc_controller.go: a BMC gets its status from its manager, and a Server for
-- each of its systems.
pub mod World
pub mod Reconcile
pub mod Discovery
pub mod Sessions
