-- ===== src/Api.antt =====
-- The custom resources of api/v1alpha1 and the parts of the Kubernetes object model that they
-- carry. Each resource is a module below this one.
pub mod Meta
pub mod Server
pub mod Claim
