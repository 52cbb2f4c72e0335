-- ===== src/Encoding/Decode/Numbers.antt =====
-- The encodings of numbers that `decode` handles itself (internal/encoding/decode.go): parts of
-- decimals, frames of reference and zigzag.
use vortex_go.Base.{
  ℕ, ◌+◌, ◌-◌, ◌*◌, ◌/◌, ◌%◌, not, ◌||◌, none, some, List, [], ◌∷◌, ◌++◌, map, length, replicate,
  min, max, ◌==◌,
}
use vortex_go.Outcome.{failed, refuse}
use vortex_go.Outcome.Act.{pure, lift, ◌>>=◌, ◌>>◌}
use vortex_go.Schema.{
  VortexType, vtype, Kind, kind_of, is_kind, width, is_integer, is_signed, is_nullable,
}
use vortex_go.Base.Int.{ℤ, pos, negsuc}
use vortex_go.Encoding.Word.{write_word, low_bits, as_signed, unzigzag, word}
use vortex_go.Encoding.Proto.{Proto, num}
use vortex_go.Encoding.Values.{
  Values, values, Node, node, Decode, slices, bits_of, valid_of, with_bits, with_valid, with_type,
  empty, count_children, index, is_valid,
}
use vortex_go.Encoding.Scalar.{constant}
use vortex_go.Encoding.Numeric.Primitive.{primitive_type, ChildDecoder, child}

-- The sign of a part, in every byte of the value but those of its word.
part_bytes : (w : ℕ) → ℤ → List ℕ
unfolding write_word
part_bytes w (pos n) = write_word (replicate (min w 8) 0) (min w 8) n ++ replicate (w - 8) 0
part_bytes w (negsuc n) =
    write_word (replicate (min w 8) 255) (min w 8) (word - 1 - n) ++ replicate (w - 8) 255

-- v.wide of the parts, `w` bytes each, where `from` is the width of a part
wide_parts : (from w : ℕ) → List ℕ → List ℕ
unfolding part_bytes as_signed
wide_parts from w [] = []
wide_parts from w (x ∷ xs) = part_bytes w (as_signed x from) ++ wide_parts from w xs

wide_length : Values → ℕ
wide_length v = elim (slices v).wide [ none ↦ 0 | some b ↦ length b ]

with_wide : List ℕ → Values → Values
with_wide b (values t n s fs) = values t n (record s { wide = some b }) fs

-- unsigned(t) of types.go
unfoldable pub unsigned_kind : Kind → Kind
unsigned_kind Kind.i8 = Kind.u8
unsigned_kind Kind.i16 = Kind.u16
unsigned_kind Kind.i32 = Kind.u32
unsigned_kind Kind.i64 = Kind.u64
unsigned_kind k = k

unfoldable pub unsigned : VortexType → VortexType
unfolding unsigned_kind
unsigned (vtype i fs s) = vtype (record i { kind = unsigned_kind i.kind }) fs s

-- n.Metadata
metadata_of : Node → List ℕ
metadata_of (node e m bs cs) = m

module _ (decode_child : ChildDecoder) where
  -- "vortex.decimal_byte_parts"
  unfoldable pub decode_decimal_parts : Node → VortexType → ℕ → Proto → Decode Values
  unfolding empty wide_parts wide_length with_wide
  decode_decimal_parts n t rows m = do
    lift (
        refuse (not (is_kind (kind_of t) Kind.decimal) || not (num m 2 == 0))
          (failed "unsupported decimal byte parts"))
    ct ← lift (primitive_type (num m 1) (is_nullable t))
    lift (refuse (not (is_signed (kind_of ct))) (failed "decimal parts must be signed"))
    c ← child decode_child n 0 ct rows
    v ← empty t rows
    pure (
        with_wide (wide_parts (width (kind_of ct)) (wide_length v / max rows 1) (bits_of c))
          (with_valid (valid_of c) v))

  -- The reference of "fastlanes.for"
  reference : Node → VortexType → Decode ℕ
  unfolding constant metadata_of is_valid
  reference n t = do
    s ← constant t 1 (metadata_of n)
    v ← lift (is_valid (valid_of s) 0)
    lift (refuse (not v) (failed "null FOR reference"))
    lift (index (bits_of s) 0)

  -- "fastlanes.for": bits are added modulo the width
  unfoldable pub decode_for : Node → VortexType → ℕ → Decode Values
  unfolding count_children reference
  decode_for n t rows = do
    lift (refuse (not (is_integer (kind_of t))) (failed "integer encoding requires integer dtype"))
    lift (count_children n 1)
    v ← child decode_child n 0 t rows
    base ← reference n t
    pure (
        with_bits (map (λ x. low_bits ((x + base) % word) (width (kind_of t) * 8)) (bits_of v))
          (with_type t v))

  -- "vortex.zigzag"
  unfoldable pub decode_zigzag : Node → VortexType → ℕ → Decode Values
  unfolding count_children unsigned unzigzag
  decode_zigzag n t rows = do
    lift (refuse (not (is_integer (kind_of t))) (failed "integer encoding requires integer dtype"))
    lift (count_children n 1)
    lift (refuse (not (is_signed (kind_of t))) (failed "zigzag requires signed dtype"))
    v ← child decode_child n 0 (unsigned t) rows
    pure (
        with_bits (map (λ x. low_bits (unzigzag x) (width (kind_of t) * 8)) (bits_of v))
          (with_type t v))
