-- ===== src/Encoding/Binary/OnPair.antt =====
-- `decoder.onpair` of internal/encoding/binary.go.
pub mod Tokens
use vortex_go.Base.{
  ℕ, zero, suc, ◌+◌, ◌-◌, ◌*◌, ◌^◌, Bool, true, false, not, ◌&&◌, ◌||◌, Option, none, some, List,
  [], ◌∷◌, take, drop, length, ltb, if◌then◌else◌,
}
use vortex_go.Outcome.{Result, ok, err, failed, refuse}
use vortex_go.Outcome.Act.{pure, raise, lift, ◌>>=◌, ◌>>◌}
use vortex_go.Schema.{VortexType, Kind, is_kind, kind_of, is_integer, is_signed, width}
use vortex_go.Encoding.Proto.{Proto, num}
use vortex_go.Encoding.Values.{
  Values, Node, Decode, bits_of, with_valid, empty, one_buffer, bounded_int, index, is_valid,
  reserve,
}
use vortex_go.Encoding.Numeric.Primitive.{primitive_type, ChildDecoder, child, validity}
use vortex_go.Encoding.Scalar.Utf8.{utf8_valid}
use vortex_go.Encoding.Binary.VarBin.{with_bytes}
use vortex_go.Encoding.Binary.OnPair.Tokens.{parse_tokens, onpair_value}

not_unsigned : VortexType → Bool
not_unsigned t = not (is_integer (kind_of t)) || is_signed (kind_of t)

-- uint64(d.remaining)
check_room : ℕ → Decode (Unit {0})
check_room expected d =
    (refuse (ltb d.remaining expected) (failed "OnPair value exceeds allocation limit"), d)

-- The children's columns that the loop over the rows reads.
record Columns : Type 0 where
  tokens : List (List ℕ)
  codes : List ℕ
  codes_len : ℕ
  bounds : List ℕ
  lens : List ℕ
  is_utf8 : Bool

-- One row that is not null.
onpair_row : Columns → (i : ℕ) → Decode (List ℕ)
unfolding check_room reserve onpair_value utf8_valid
onpair_row c i = do
  a ← lift (index c.bounds i)
  b ← lift (index c.bounds (i + 1))
  lift (refuse (ltb b a || ltb c.codes_len b) (failed "OnPair code offsets out of bounds"))
  expected ← lift (index c.lens i)
  lift
      (refuse (ltb expected (b - a)) (failed "OnPair row names more codes than its decoded length"))
  check_room expected
  reserve expected
  v ← lift (onpair_value c.tokens expected (take (b - a) (drop a c.codes)))
  lift (refuse (c.is_utf8 && not (utf8_valid v)) (failed "OnPair invalid UTF8"))
  pure v

-- `n` rows are left, from i on; a null row stays empty.
onpair_rows : Columns → Option (List Bool) → (n i : ℕ) → Decode (List (List ℕ))
unfolding is_valid onpair_row
onpair_rows c valid zero i = pure []
onpair_rows c valid (suc n) i = do
  v ← lift (is_valid valid i)
  b ← (if v then onpair_row c i else pure [])
  rest ← onpair_rows c valid n (i + 1)
  pure (b ∷ rest)

-- d.onpair(n, t, length, m)
unfoldable pub onpair : ChildDecoder → Node → VortexType → ℕ → Proto → Decode Values
unfolding not_unsigned parse_tokens onpair_rows
onpair decode_child n t rows m = do
  lift (
      refuse (not (is_kind (kind_of t) Kind.utf8) && not (is_kind (kind_of t) Kind.binary))
        (failed "OnPair requires binary/UTF8"))
  dict ← lift (one_buffer n)
  size ← lift (bounded_int (num m 3))
  codes_len ← lift (bounded_int (num m 4))
  offsets_type ← lift (primitive_type (num m 5) false)
  codes_type ← lift (primitive_type (num m 6) false)
  bounds_type ← lift (primitive_type (num m 7) false)
  lens_type ← lift (primitive_type (num m 1) false)
  lift (
      refuse
        (not_unsigned offsets_type
          || not_unsigned codes_type
          || not_unsigned bounds_type
          || not_unsigned lens_type)
        (failed "OnPair children require unsigned integers"))
  offsets ← child decode_child n 0 offsets_type (size + 1)
  codes ← child decode_child n 1 codes_type codes_len
  bounds ← child decode_child n 2 bounds_type (rows + 1)
  lens ← child decode_child n 3 lens_type rows
  out ← empty t rows
  valid ← validity decode_child n 4 rows
  lift (
      refuse
        (ltb (width (kind_of codes_type) * 8) 64 && ltb (2 ^ (width (kind_of codes_type) * 8)) size)
        (failed "OnPair dictionary larger than the code width can address"))
  reserve (size * 24)
  tokens ← lift (parse_tokens size 0 0 (bits_of offsets) dict)
  bytes ←
      onpair_rows
        (record {
          tokens = tokens;
          codes = bits_of codes;
          codes_len = codes_len;
          bounds = bits_of bounds;
          lens = bits_of lens;
          is_utf8 = is_kind (kind_of t) Kind.utf8;
        })
        valid rows 0
  pure (with_valid valid (with_bytes bytes out))
