-- ===== src/Encoding/Binary/Decimal.antt =====
-- `decoder.decimal` of internal/encoding/binary.go: little-endian integers of another width.
use vortex_go.Base.{
  ℕ, zero, suc, ◌-◌, ◌*◌, ◌^◌, Bool, true, not, ◌&&◌, some, List, [], ◌∷◌, ◌++◌, take, drop, length,
  replicate, ltb, ◌==◌, if◌then◌else◌,
}
use vortex_go.Outcome.{Result, ok, err, failed, refuse}
use vortex_go.Outcome.Act.{pure, lift, ◌>>=◌, ◌>>◌}
use vortex_go.Schema.{VortexType, Kind, is_kind, kind_of}
use vortex_go.Schema.Arrow.{ArrowTypes, arrow_type}
use vortex_go.Encoding.Proto.{Proto, num}
use vortex_go.Encoding.Values.{
  Values, values, Node, Decode, with_valid, empty, one_buffer, decimal_width, index,
}
use vortex_go.Encoding.Numeric.Primitive.{ChildDecoder, validity}

-- The byte that a number's sign extends to: raw[ow-1]&128
sign_byte : List ℕ → ℕ → Result ℕ
sign_byte raw i = elim (index raw i) [ err e ↦ err e | ok x ↦ ok (if ltb x 128 then 0 else 255) ]

all_are : ℕ → List ℕ → Bool
all_are x [] = true
all_are x (y ∷ ys) = y == x && all_are x ys

-- A value of more than `ow` bytes is cut to them, if the rest is its sign.
narrowed : (ow : ℕ) → List ℕ → Result (List ℕ)
unfolding sign_byte all_are
narrowed ow raw = elim (sign_byte raw (ow - 1)) [
  | err e ↦ err e
  | ok s ↦
      if all_are s (drop ow raw)
      then ok (take ow raw)
      else err (failed "decimal exceeds storage width")
]

-- A value of `w` bytes as one of `ow` bytes.
unfoldable pub resized : (w ow : ℕ) → List ℕ → Result (List ℕ)
unfolding narrowed sign_byte
resized w ow raw =
    if ltb ow w
    then narrowed ow raw
    else (elim (sign_byte raw (w - 1)) [ err e ↦ err e | ok s ↦ ok (raw ++ replicate (ow - w) s) ])

-- `n` rows are left.
unfoldable pub decimal_rows : (n w ow : ℕ) → List ℕ → Result (List ℕ)
unfolding resized
decimal_rows zero w ow b = ok []
decimal_rows (suc n) w ow b = elim (resized w ow (take w b)) [
  | err e ↦ err e
  | ok x ↦ elim (decimal_rows n w ow (drop w b)) [ err e ↦ err e | ok rest ↦ ok (x ++ rest) ]
]

with_wide : List ℕ → Values → Values
with_wide b (values t n s fs) = values t n (record s { wide = some b }) fs

arrow_ok : ArrowTypes → VortexType → Result (Unit {0})
unfolding arrow_type
arrow_ok arrow t = elim (arrow_type arrow t) [ ok d ↦ ok tt | err e ↦ err e ]

-- d.decimal(n, t, length, m)
unfoldable pub decimal : ArrowTypes → ChildDecoder → Node → VortexType → ℕ → Proto → Decode Values
unfolding arrow_ok one_buffer empty decimal_rows with_wide validity decimal_width
decimal arrow decode_child n t rows m = do
  lift (
      refuse (not (is_kind (kind_of t) Kind.decimal))
        (failed "decimal encoding requires decimal type"))
  lift (arrow_ok arrow t)
  lift (refuse (ltb 5 (num m 1)) (failed "invalid decimal storage width"))
  b ← lift (one_buffer n)
  lift (refuse (not (length b == rows * 2 ^ num m 1)) (failed "incomplete decimal buffer"))
  out ← empty t rows
  wide ← lift (decimal_rows rows (2 ^ num m 1) (decimal_width t) b)
  valid ← validity decode_child n 0 rows
  pure (with_valid valid (with_wide wide out))
