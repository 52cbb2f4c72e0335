-- ===== src/File.antt =====
-- Opening a file and decoding its flat arrays: file.go, dtype.go and array.go. The FlatBuffers
-- accessors that flatc generates and the io.ReaderAt are parameters.
pub mod Read
pub mod Tables
pub mod Limits
pub mod Registry
pub mod LayoutTree
pub mod DType
pub mod Arrays
pub mod Open
