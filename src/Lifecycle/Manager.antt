-- ===== src/Lifecycle/Manager.antt =====
-- internal/lifecycle/manager.go: the key manager. Its definitions are in `Defs` (state, reads),
-- `Transactions` (what runs inside WithTx) and `Operations` (the methods).
pub mod Defs
pub mod Transactions
pub mod Operations
pub mod Stored
pub mod Rotation
pub mod Loading
pub mod RotateKey
pub mod ShredKey
pub mod SoftDelete
pub mod CreateKey
