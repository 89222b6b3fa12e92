-- ===== src/ServerReconciler.antt =====
-- internal/controller/server_controller.go. A method that assigns through its `server` pointer
-- returns the new server; an object that a failed call leaves is not read again.
pub mod Config
pub mod Power
pub mod Boot
pub mod Status
pub mod States
pub mod Reconcile
pub mod PowerLaws
pub mod Sessions
pub mod BiosLaws
pub mod BootLaws
pub mod Diagram
pub mod Quiet
mod QuietParts
pub mod StateSteps
mod KeepsState
mod Guards
mod Transitions
pub mod Lawful
