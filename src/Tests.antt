-- ===== src/Tests.antt =====
-- Concrete inputs, and the theorems at them.
mod Data
mod Answers
mod ServerWitnesses
mod ClaimWitnesses
mod ServiceWitnesses
mod Pollers
mod Backoffs
mod RedfishWitnesses
mod ControllerWitnesses
