-- ===== src/Pco.antt =====
-- The decompressor internal/pco/decode.go.
pub mod Lists
pub mod Words
pub mod Reader
pub mod Table
pub mod Latent
pub mod Mode
pub mod Chunk
pub mod Page
pub mod Restore
pub mod Output
pub mod Decode
