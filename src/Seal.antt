-- ===== src/Seal.antt =====
-- internal/seal: secret sharing and the vault's seal state machine.
pub mod Shamir
pub mod Vault
