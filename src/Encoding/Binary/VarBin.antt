-- ===== src/Encoding/Binary/VarBin.antt =====
-- `varbin` of internal/encoding/binary.go: values by offsets, or by views of 16 bytes.
use vortex_go.Base.{
  ℕ, zero, suc, ◌+◌, ◌-◌, ◌*◌, Bool, true, false, not, ◌&&◌, ◌||◌, Option, none, some, List, [],
  ◌∷◌, String, take, drop, length, ltb, leb, ◌==◌, if◌then◌else◌,
}
use vortex_go.Outcome.{Result, ok, failed, refuse, ◌>>=◌, ◌>>◌}
use vortex_go.Encoding.Word.{read_little}
use vortex_go.Encoding.Values.{Values, values, slices, is_valid, index}
use vortex_go.Encoding.Scalar.Utf8.{utf8_valid}

-- `out.bytes = rows`
abbrev pub with_bytes : List (List ℕ) → Values → Values
with_bytes b (values t n s fs) = values t n (record s { bytes = some b }) fs

-- v.bytes, where ranging over nil is ranging over nothing
abbrev pub bytes_of : Values → List (List ℕ)
bytes_of v = elim (slices v).bytes [ none ↦ [] | some b ↦ b ]

-- string(a) == string(b)
same_bytes : List ℕ → List ℕ → Bool
same_bytes [] [] = true
same_bytes (a ∷ as') (b ∷ bs) = (a == b) && same_bytes as' bs
same_bytes as' bs = false

-- The loop over the offsets: `n` rows are left, from i on.
unfoldable pub offset_rows :
    (what : String) → (n i : ℕ) → (offsets bytes : List ℕ) → Result (List (List ℕ))
offset_rows what zero i offsets bytes = ok []
offset_rows what (suc n) i offsets bytes = do
  a ← index offsets i
  b ← index offsets (i + 1)
  refuse (ltb b a || ltb (length bytes) b) (failed what)
  rest ← offset_rows what n (i + 1) offsets bytes
  ok (take (b - a) (drop a bytes) ∷ rest)

-- A view of a value that is longer than 12 bytes: its buffer, offset and first four bytes.
outside : (size : ℕ) → List ℕ → List (List ℕ) → Result (List ℕ)
unfolding read_little same_bytes
outside size v bufs = do
  refuse (leb (length bufs - 1) (read_little (drop 8 v) 4))
      (failed "view buffer index out of bounds")
  bytes ← index bufs (read_little (drop 8 v) 4)
  refuse
      (ltb (length bytes) (read_little (drop 12 v) 4)
        || ltb (length bytes - read_little (drop 12 v) 4) size)
      (failed "view byte range out of bounds")
  refuse
      (not (
        same_bytes (take 4 (drop 4 v))
          (take 4 (take size (drop (read_little (drop 12 v) 4) bytes)))))
      (failed "view prefix mismatch")
  ok (take size (drop (read_little (drop 12 v) 4) bytes))

-- The value of one view.
unfoldable pub view_row : List ℕ → List (List ℕ) → Result (List ℕ)
unfolding read_little outside
view_row v bufs =
    if leb (read_little v 4) 12
    then ok (take (read_little v 4) (drop 4 v))
    else outside (read_little v 4) v bufs

-- The loop over the views: `n` rows are left, from i on; a null row stays empty.
unfoldable pub view_rows :
    (n i : ℕ) → Option (List Bool) → (views : List ℕ) → List (List ℕ) → Result (List (List ℕ))
unfolding is_valid view_row
view_rows zero i valid views bufs = ok []
view_rows (suc n) i valid views bufs = do
  v ← is_valid valid i
  b ← (if v then view_row (take 16 (drop (i * 16) views)) bufs else ok [])
  rest ← view_rows n (i + 1) valid views bufs
  ok (b ∷ rest)

-- The check that every valid row is UTF-8, from row i on.
unfoldable pub check_utf8 : List (List ℕ) → (i : ℕ) → Option (List Bool) → Result (Unit {0})
unfolding is_valid utf8_valid
check_utf8 [] i valid = ok tt
check_utf8 (b ∷ bs) i valid = do
  v ← is_valid valid i
  refuse (v && not (utf8_valid b)) (failed "invalid UTF8")
  check_utf8 bs (i + 1) valid
