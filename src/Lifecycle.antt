-- ===== src/Lifecycle.antt =====
-- internal/lifecycle: key metadata, the DEK cache and the key manager.
pub mod Metadata
pub mod Keys
pub mod Cache
pub mod Result
pub mod Manager
pub mod Listing
pub mod Daemon
