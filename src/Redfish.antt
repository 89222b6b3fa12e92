-- ===== src/Redfish.antt =====
-- bmc/redfish.go, bmc/redfish_local.go and bmc/redfish_kube.go: the three implementations of the
-- interface of bmc/bmc.go, over the service that gofish speaks to.
pub mod Text
pub mod Service
pub mod Client
pub mod Bios
pub mod Storage
pub mod Variants
pub mod SystemLaws
pub mod Times
pub mod BiosLaws
pub mod BiosSafety
pub mod WriteLaws
