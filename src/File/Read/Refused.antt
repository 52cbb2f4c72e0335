-- ===== src/File/Read/Refused.antt =====
-- `read` outside of the file or above the limit: an error, and the source is not asked.
use vortex_go.Base.{ℕ, ◌+◌, ◌<◌}
use vortex_go.Base.Int.{ℤ, pos, negsuc}

-- The range begins before the file or ends behind it.
abbrev pub IsOutside : (size : ℕ) → ℤ → (length : ℕ) → Type 0
IsOutside size (negsuc k) length = Unit
IsOutside size (pos offset) length = size < offset + length
