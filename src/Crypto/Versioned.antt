-- ===== src/Crypto/Versioned.antt =====
-- internal/crypto/versioned_ciphertext.go and versioned_encrypt.go: a ciphertext is the key's
-- version (4 bytes, big endian), the nonce (12 bytes), and the sealed text with its tag.
pub mod Format
pub mod RoundTrip
pub mod Parsing
