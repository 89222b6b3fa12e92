-- ===== src/Registry.antt =====
-- internal/registry/server.go: the HTTP server in which the probes register their machines.
pub mod Server
pub mod Laws
