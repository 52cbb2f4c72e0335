-- ===== src/Encoding/Numeric.antt =====
-- The numeric encodings of internal/encoding/numeric.go and temporal_delta.go. A function takes
-- the decoder of children as a parameter: `decode` passes itself, one level deeper.
pub mod Primitive
pub mod Sequence
pub mod RunEnd
pub mod Dictionary
pub mod Patches
pub mod Delta
pub mod BitPacked
pub mod Rle
pub mod Alp
