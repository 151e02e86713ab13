-- ===== src/Crypto.antt =====
-- internal/crypto: the self-routing ciphertext format and versioned encryption.
pub mod Versioned
