-- ===== src/BmcUtils.antt =====
-- internal/bmcutils/bmcutils.go: from a server or a BMC resource to a client of the BMC.
pub mod Clients
pub mod Laws
