-- ===== src/Auth/Policy.antt =====
-- internal/auth/auth.go: policies with wildcards, the static token authenticator, tenant prefixes.
pub mod Defs
pub mod Patterns
pub mod Tokens
pub mod Tenants
