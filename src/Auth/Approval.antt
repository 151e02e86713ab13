-- ===== src/Auth/Approval.antt =====
-- internal/auth/approval.go, approval_store_memory.go, and the handlers of
-- internal/api/handler_approval.go and middleware_mfa.go: K-of-N approval of sensitive operations.
pub mod Defs
pub mod Handlers
pub mod Serving
pub mod Gate
pub mod Soundness
pub mod Invariant
pub mod Races
