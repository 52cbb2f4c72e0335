-- ===== src/Encoding/Binary.antt =====
-- The encodings of strings: internal/encoding/binary.go.
pub mod VarBin
pub mod Fsst
pub mod Strings
pub mod OnPair
pub mod Decimal
pub mod Zstd
pub mod Pco
pub mod PcoChunks
