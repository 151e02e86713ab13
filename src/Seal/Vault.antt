-- ===== src/Seal/Vault.antt =====
-- internal/seal/state.go: VaultState, the seal state machine. Every method holds the vault's lock
-- for its whole run, so a method is a function on the state.
pub mod Machine
pub mod Invariant
pub mod Emergency
pub mod Unsealing
pub mod Recovery
