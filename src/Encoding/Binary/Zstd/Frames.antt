-- ===== src/Encoding/Binary/Zstd/Frames.antt =====
-- The values of a Zstd frame (internal/encoding/binary.go): the loop over the decompressed bytes.
use vortex_go.Base.{
  ℕ, zero, suc, ◌+◌, Bool, true, false, not, ◌&&◌, Option, List, [], ◌∷◌, ◌++◌, take, drop, length,
  ltb,
}
use vortex_go.Outcome.{Result, ok, err, failed, refuse, ◌>>=◌, ◌>>◌}
use vortex_go.Encoding.Word.{read_word, read_little, write_little}
use vortex_go.Encoding.Values.{is_valid}
use vortex_go.Encoding.Scalar.Utf8.{utf8_valid}

-- A primitive of `w` bytes
unfoldable pub take_word : (w : ℕ) → List ℕ → Result (ℕ × List ℕ)
unfolding read_word
take_word w raw = do
  refuse (ltb (length raw) w) (failed "truncated Zstd primitive")
  x ← read_word raw w
  ok (x, drop w raw)

-- A string behind its length in four bytes
unfoldable pub take_string : (is_utf8 : Bool) → List ℕ → Result (List ℕ × List ℕ)
unfolding read_little utf8_valid
take_string is_utf8 raw = do
  refuse (ltb (length raw) 4) (failed "truncated Zstd length prefix")
  refuse (ltb (length (drop 4 raw)) (read_little raw 4)) (failed "truncated Zstd value")
  refuse (is_utf8 && not (utf8_valid (take (read_little raw 4) (drop 4 raw))))
      (failed "Zstd invalid UTF8")
  ok (take (read_little raw 4) (drop 4 raw), drop (read_little raw 4) (drop 4 raw))

module _ {A : Type 0} (take_value : List ℕ → Result (A × List ℕ)) (blank : A)
    (valid : Option (List Bool)) where
  -- A frame's values from row `row` on, where `n` rows are left: what the rows take, and how many
  -- values the frame had. A null row takes none.
  unfoldable pub frame_rows : (n row : ℕ) → List ℕ → Result (List A × ℕ)
  unfolding is_valid
  frame_rows n row [] = ok ([], 0)
  frame_rows zero row (x ∷ raw) = err (failed "Zstd contains too many values")
  frame_rows (suc n) row (x ∷ raw) = do
    v ← is_valid valid row
    elim v [
      | true ↦
          (take_value (x ∷ raw) >>= λ p.
          frame_rows n (row + 1) p.1 >>= λ q. ok (p.0 ∷ q.0, suc q.1))
      | false ↦ (frame_rows n (row + 1) (x ∷ raw) >>= λ q. ok (blank ∷ q.0, q.1))
    ]

  -- The rows that are left when the frames are spent: nulls.
  unfoldable pub rest_rows : (n row : ℕ) → Result (List A)
  unfolding is_valid
  rest_rows zero row = ok []
  rest_rows (suc n) row = do
    v ← is_valid valid row
    refuse v (failed "Zstd contains too few values")
    rest ← rest_rows n (row + 1)
    ok (blank ∷ rest)

-- The bytes of some strings, each behind its length.
abbrev pub prefixed : List (List ℕ) → List ℕ
prefixed [] = []
prefixed (b ∷ bs) = write_little 4 (length b) ++ (b ++ prefixed bs)
