-- ===== src/Encoding/Numeric/Rle.antt =====
-- `rle` of internal/encoding/numeric.go: chunks of 1024 rows, each with values of its own.
pub mod Rows
use vortex_go.Base.{
  ℕ, zero, suc, ◌+◌, ◌-◌, ◌*◌, ◌/◌, ◌%◌, Bool, true, false, not, ◌&&◌, ◌||◌, Option, none, some,
  List, [], ◌∷◌, map, ltb, leb, ◌==◌, if◌then◌else◌,
}
use vortex_go.Outcome.{Result, ok, err, failed, refuse}
use vortex_go.Outcome.Act.{pure, raise, lift, ◌>>=◌, ◌>>◌}
use vortex_go.Schema.{
  VortexType, Kind, kind_of, is_kind, width, is_integer, is_signed, with_nullable, is_nullable,
}
use vortex_go.Encoding.Proto.{Proto, num}
use vortex_go.Encoding.Values.{
  Values, Node, Decode, bits_of, valid_of, with_bits, with_valid, bounded_int, count_children,
  empty, mask,
}
use vortex_go.Encoding.Numeric.Primitive.{primitive_type, ChildDecoder, child}
use vortex_go.Encoding.Numeric.Rle.Rows.{rle_rows}

bad_kinds : VortexType → VortexType → Bool
bad_kinds it ot =
    not (is_kind (kind_of it) Kind.u8 || is_kind (kind_of it) Kind.u16)
    || not (is_integer (kind_of ot))
    || is_signed (kind_of ot)

bad_shape : (off rows il ol : ℕ) → Bool
bad_shape off rows il ol =
    leb 1024 off || ltb il (off + rows) || not (il % 1024 == 0) || not (ol == il / 1024)

bits_of_row : Option ℕ → ℕ
bits_of_row none = 0
bits_of_row (some b) = b

is_present : Option ℕ → Bool
is_present none = false
is_present (some b) = true

-- The rows are written to `out`; its mask is there where the indices have one.
with_rows : List (Option ℕ) → Option (List Bool) → Values → Values
unfolding bits_of_row is_present
with_rows rows none out = with_bits (map bits_of_row rows) out
with_rows rows (some m) out =
    with_valid (some (map is_present rows)) (with_bits (map bits_of_row rows) out)

-- if idx.valid != nil { d.mask(out) }
masked : Option (List Bool) → Values → Decode Values
unfolding mask
masked none out = pure out
masked (some m) out = mask out

-- d.rle(n, t, length, m)
unfoldable pub rle : ChildDecoder → Node → VortexType → ℕ → Proto → Decode Values
unfolding bad_kinds bad_shape with_rows masked rle_rows
rle decode_child n t rows m = do
  lift (count_children n 3)
  lift (refuse (width (kind_of t) == 0) (failed "RLE requires primitive type"))
  vl ← lift (bounded_int (num m 1))
  il ← lift (bounded_int (num m 2))
  ol ← lift (bounded_int (num m 4))
  it ← lift (primitive_type (num m 3) (is_nullable t))
  ot ← lift (primitive_type (num m 5) false)
  lift (
      refuse (bad_kinds it ot)
        (failed "RLE indices must be u8/u16 and offsets must be unsigned integers"))
  vals ← child decode_child n 0 (with_nullable false t) vl
  idx ← child decode_child n 1 it il
  offsets ← child decode_child n 2 ot ol
  lift (refuse (bad_shape (num m 6) rows il ol) (failed "invalid RLE shape"))
  empty_out ← empty t rows
  out ← masked (valid_of idx) empty_out
  bits ←
      lift (
        rle_rows rows (num m 6) vl ol (bits_of vals) (bits_of offsets) (bits_of idx) (valid_of idx))
  pure (with_rows bits (valid_of idx) out)
