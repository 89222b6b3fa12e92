-- ===== src/EndpointWebhook.antt =====
-- internal/webhook/v1alpha1/endpoint_webhook.go: which endpoints the API server admits.
pub mod Validator
pub mod Uniqueness
