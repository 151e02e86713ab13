-- ===== src/Auth.antt =====
-- internal/auth: policies, static tokens, tenants, and the K-of-N approval of sensitive
-- operations, with their HTTP handlers of internal/api.
pub mod Policy
pub mod Mfa
pub mod Approval
