-- ===== src/Auth/Mfa.antt =====
-- internal/auth/totp.go and mfa_store_memory.go, and the handlers of internal/api/handler_mfa.go: the
-- second factor of a role.
pub mod Totp
pub mod Handlers
pub mod Drift
pub mod Setup
pub mod Keyed
pub mod Replacing
