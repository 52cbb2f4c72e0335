-- ===== src/Encoding.antt =====
-- The array decoder: internal/encoding.
pub mod Word
pub mod Proto
pub mod Values
pub mod Row
pub mod Scalar
pub mod Numeric
pub mod Binary
pub mod Temporal
pub mod Decode
