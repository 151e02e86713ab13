-- ===== src/Seal/Shamir.antt =====
-- internal/seal/shamir.go: Shamir sharing over GF(2^8).
pub mod Field
pub mod Sharing
pub mod Inverse
pub mod Multiplying
pub mod Table
pub mod Distributing
pub mod BinaryField
pub mod Weights
pub mod Lagrange
pub mod Products
pub mod Positions
pub mod Bytes
pub mod Recovery
