-- ===== src/Webhook.antt =====
-- internal/webhook/dashboard/v1alpha1: the resolution of `urlFrom` references and the validation of
-- bookmarks.
pub mod Host
pub mod UrlResolver
pub mod Validator
