-- ===== src/Tests.antt =====
-- Runs of the definitions on small inputs, and each theorem at an input where its hypotheses hold.
pub mod Toy
pub mod Scanning
pub mod Opening
pub mod Starting
pub mod Pco
pub mod Decoding
pub mod Strings
