-- ===== src/Audit.antt =====
-- internal/audit: the hash chain of the audit log, its file and the queries on it.
pub mod Hex
pub mod Logger
pub mod Query
pub mod Recording
pub mod Sorting
pub mod Finding
pub mod Omitting
pub mod Linked
pub mod Tampering
pub mod Limits
