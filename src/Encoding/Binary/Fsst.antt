-- ===== src/Encoding/Binary/Fsst.antt =====
-- `fsst` of internal/encoding/binary.go: the loop that expands the codes of a value.
pub mod Tokens
use vortex_go.Base.{
  ℕ, zero, suc, ◌+◌, ◌-◌, ◌*◌, ◌/◌, ◌%◌, Bool, true, false, not, ◌&&◌, ◌||◌, Option, none, some,
  List, [], ◌∷◌, ◌++◌, take, drop, length, ltb, leb, ◌==◌, if◌then◌else◌,
}
use vortex_go.Outcome.{Result, ok, err, failed, refuse, ◌>>=◌, ◌>>◌}
use vortex_go.Encoding.Values.{index}

-- The table: eight bytes for each symbol, and its size.
pub record Symbols : Type 0 where
  pub bytes : List ℕ
  pub sizes : List ℕ

big_size : List ℕ → Bool
big_size [] = false
big_size (s ∷ ss) = ltb 8 s || big_size ss

-- The checks of the two buffers of the table.
unfoldable pub check_symbols : Symbols → Result (Unit {0})
unfolding big_size
check_symbols t = do
  refuse
      (not (length t.bytes % 8 == 0)
        || not (length t.bytes / 8 == length t.sizes)
        || ltb 255 (length t.sizes))
      (failed "invalid FSST symbol table")
  refuse (big_size t.sizes) (failed "invalid FSST symbol size")

module _ (t : Symbols) (expected : ℕ) where
  -- b = append(b, c[j]) behind an escape
  escape : (x : ℕ) → (b : List ℕ) → Result (List ℕ)
  escape x b = do
    refuse (ltb expected (length b + 1)) (failed "FSST exceeds declared length")
    ok (b ++ (x ∷ []))

  -- sizes[code]
  symbol_size : ℕ → Result ℕ
  symbol_size code = do
    refuse (leb (length t.sizes) code) (failed "invalid FSST symbol code")
    size ← index t.sizes code
    refuse (size == 0) (failed "invalid FSST symbol code")
    ok size

  -- b = append(b, symbols[code*8:code*8+size]...)
  emit : (code : ℕ) → (b : List ℕ) → Result (List ℕ)
  unfolding symbol_size
  emit code b = do
    size ← symbol_size code
    refuse (ltb expected (length b + size)) (failed "FSST exceeds declared length")
    ok (b ++ take size (drop (code * 8) t.bytes))

  -- The loop over the codes, after the bytes `b`.
  unfoldable pub expand_codes : List ℕ → (b : List ℕ) → Result (List ℕ)
  unfolding escape emit
  expand_codes [] b = ok b
  expand_codes (code ∷ []) b =
      if code == 255 then err (failed "truncated FSST escape") else emit code b
  expand_codes (code ∷ x ∷ rest) b = elim (code == 255) [
    | true ↦ (escape x b >>= λ b'. expand_codes rest b')
    | false ↦ (emit code b >>= λ b'. expand_codes (x ∷ rest) b')
  ]

  -- The value of one row.
  unfoldable pub expand_value : List ℕ → Result (List ℕ)
  expand_value codes = do
    b ← expand_codes codes []
    refuse (not (length b == expected)) (failed "FSST decoded length mismatch")
    ok b
