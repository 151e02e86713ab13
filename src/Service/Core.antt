-- ===== src/Service/Core.antt =====
-- internal/service/core.go and core_v12.go: Core puts the vault, the policies, the key manager and the
-- audit log together.
pub mod Defs
pub mod Keys
pub mod Data
pub mod Calls
pub mod Refusing
pub mod RoundTrip
pub mod Surviving
pub mod Disabling
