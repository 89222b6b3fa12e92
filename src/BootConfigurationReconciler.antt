-- ===== src/BootConfigurationReconciler.antt =====
-- internal/controller/serverbootconfiguration_controller.go: the controller of boot configurations.
pub mod Reconcile
pub mod Pending
