-- ===== src/Storage.antt =====
-- internal/storage: the in-memory key-value store and the interface that its clients see.
pub mod Memory
pub mod Paging
pub mod Interface
