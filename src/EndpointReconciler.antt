-- ===== src/EndpointReconciler.antt =====
-- internal/controller/endpoint_controller.go: an endpoint whose MAC address has a known prefix
-- becomes a BMC with its secret.
pub mod World
pub mod Reconcile
pub mod Writes
pub mod Justified
pub mod Sessions
