-- ===== src/Scan.antt =====
-- Scanning a file: scan.go.
pub mod Plan
pub mod Cursor
pub mod Auxiliary
pub mod Reader
pub mod Start
