-- ===== src/Storage/Memory.antt =====
-- internal/storage/memory.go: MemoryStore. Its mutex makes each operation atomic, so an operation
-- is a function on the state.
mod Defs
mod Laws
mod Shredding
mod Refining
unfoldable pub use Defs.*
pub use Laws.*
pub use Shredding.*
pub use Refining.*
