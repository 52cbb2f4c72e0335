-- ===== src/Encoding/Numeric/Alp.antt =====
-- `alp` and `alprd` of internal/encoding/numeric.go. The floating-point arithmetic is a parameter.
use vortex_go.Base.{
  ℕ, ◌+◌, ◌*◌, ◌%◌, ◌^◌, Bool, true, false, not, ◌&&◌, ◌||◌, Option, List, [], ◌∷◌, map, take,
  length, ltb, leb, ◌==◌, if◌then◌else◌,
}
use vortex_go.Outcome.{Result, ok, err, failed, panic, refuse}
use vortex_go.Outcome.Act.{pure, lift, ◌>>=◌, ◌>>◌}
use vortex_go.Schema.{
  VortexType, Kind, simple, is_kind, kind_of, is_integer, is_signed, is_nullable, with_nullable,
  width,
}
use vortex_go.Encoding.Word.{word}
use vortex_go.Encoding.Proto.{Proto, num, repeated}
use vortex_go.Encoding.Values.{
  Values, Node, Decode, children, count_nodes, bits_of, valid_of, with_bits, with_valid, with_type,
  index, is_valid,
}
use vortex_go.Encoding.Numeric.Primitive.{primitive_type, ChildDecoder, child}
use vortex_go.Encoding.Numeric.Patches.{apply_patches}
use vortex_go.Encoding.Numeric.BitPacked.{field_bytes}

-- The bits of float(int(x)) * 10^factor * 10^-exp, in 32 or in 64 bits, rounded at each step.
pub record Floats : Type 0 where
  pub scaled32 : (factor exp : ℕ) → ℕ → ℕ
  pub scaled64 : (factor exp : ℕ) → ℕ → ℕ

-- The largest exponent, and the type of the integers.
alp_type : VortexType → Result (ℕ × VortexType)
alp_type t =
    if is_kind (kind_of t) Kind.f32
    then ok (10, simple Kind.i32 (is_nullable t))
    else if is_kind (kind_of t) Kind.f64
    then ok (18, simple Kind.i64 (is_nullable t))
    else err (failed "ALP requires f32/f64")

module _ (floats : Floats) (decode_child : ChildDecoder) where
  scaled : VortexType → (factor exp : ℕ) → ℕ → ℕ
  scaled t factor exp x =
      if is_kind (kind_of t) Kind.f32
      then floats.scaled32 factor exp x
      else floats.scaled64 factor exp x

  -- d.alp(n, t, length, m)
  unfoldable pub alp : Node → VortexType → ℕ → Proto → Decode Values
  unfolding alp_type child scaled apply_patches field_bytes num
  alp n t rows m = do
    (limit, ct) ← lift (alp_type t)
    lift (refuse (ltb limit (num m 1) || ltb limit (num m 2)) (failed "ALP exponent out of range"))
    v ← child decode_child n 0 ct rows
    let out = with_bits (map (scaled t (num m 2) (num m 1)) (bits_of v)) (with_type t v)
    (next, patched) ← apply_patches decode_child n 1 (field_bytes m 3) out t false
    lift (refuse (not (count_nodes (children n) == next)) (failed "unexpected ALP children"))
    pure patched

-- The entries of the dictionary are below 2^16.
has_big : List ℕ → Bool
has_big [] = false
has_big (x ∷ xs) = ltb 65535 x || has_big xs

-- The loop that replaces the codes, from row i on; the codes of null rows stay.
unfoldable pub replace_codes :
    (dict : List ℕ) → Option (List Bool) → (i : ℕ) → List ℕ → Result (List ℕ)
unfolding is_valid
replace_codes dict valid i [] = ok []
replace_codes dict valid i (c ∷ cs) = elim (is_valid valid i) [
  | err e ↦ err e
  | ok v ↦ elim (if v then code_value dict c else ok c) [
    | err e ↦ err e
    | ok x ↦ elim (replace_codes dict valid (i + 1) cs) [ err e ↦ err e | ok xs ↦ ok (x ∷ xs) ]
  ]
]
  where
    code_value : List ℕ → ℕ → Result ℕ
    code_value dict c =
        if leb (length dict) c
        then err (failed "ALPRD dictionary code out of range")
        else index dict c

-- x << bw | low: the low part has no bits from bw on
unfoldable pub merge : (bw x low : ℕ) → Result ℕ
merge bw x low =
    if ltb 65535 x || leb (2 ^ bw) low
    then err (failed "ALPRD part exceeds width")
    else ok ((x * 2 ^ bw + low) % word)

-- The loop that joins the parts, from row i on; null rows keep their low part.
unfoldable pub merge_parts :
    (bw : ℕ) → Option (List Bool) → (i : ℕ) → (left right : List ℕ) → Result (List ℕ)
unfolding is_valid merge
merge_parts bw valid i [] right = ok right
merge_parts bw valid i (x ∷ xs) [] = err panic
merge_parts bw valid i (x ∷ xs) (low ∷ right) = elim (is_valid valid i) [
  | err e ↦ err e
  | ok v ↦ elim (if v then merge bw x low else ok low) [
    | err e ↦ err e
    | ok y ↦ elim (merge_parts bw valid (i + 1) xs right) [ err e ↦ err e | ok ys ↦ ok (y ∷ ys) ]
  ]
]

-- The dictionary of alprd, by its declared length
alprd_dictionary : Proto → Result (List ℕ)
unfolding repeated has_big num
alprd_dictionary m = elim (repeated m 3) [
  | err e ↦ err e
  | ok dict ↦
      if ltb (length dict) (num m 2) || ltb 65536 (num m 2)
      then err (failed "invalid ALPRD dictionary length")
      else if has_big (take (num m 2) dict)
      then err (failed "ALPRD dictionary value exceeds u16")
      else ok (take (num m 2) dict)
]

right_type : VortexType → VortexType
right_type t = simple (if is_kind (kind_of t) Kind.f32 then Kind.u32 else Kind.u64) false

module _ (decode_child : ChildDecoder) where
  -- d.alprd(n, t, length, m)
  unfoldable pub alprd : Node → VortexType → ℕ → Proto → Decode Values
  unfolding alprd_dictionary right_type child replace_codes merge_parts apply_patches field_bytes
      num
  alprd n t rows m = do
    lift (
        refuse (not (is_kind (kind_of t) Kind.f32) && not (is_kind (kind_of t) Kind.f64))
          (failed "ALPRD requires f32/f64"))
    lift (
        refuse (leb (width (kind_of t) * 8) (num m 1) || ltb (num m 1 + 16) (width (kind_of t) * 8))
          (failed "invalid ALPRD right width"))
    dict ← lift (alprd_dictionary m)
    lt ← lift (primitive_type (num m 4) (is_nullable t))
    lift (
        refuse (not (is_integer (kind_of lt)) || is_signed (kind_of lt))
          (failed "invalid ALPRD left type"))
    left ← child decode_child n 0 lt rows
    right ← child decode_child n 1 (right_type t) rows
    codes ← lift (replace_codes dict (valid_of left) 0 (bits_of left))
    (next, patched) ←
        apply_patches decode_child n 2 (field_bytes m 5) (with_bits codes left)
          (with_nullable false lt) true
    lift (refuse (not (count_nodes (children n) == next)) (failed "unexpected ALPRD children"))
    bits ← lift (merge_parts (num m 1) (valid_of left) 0 (bits_of patched) (bits_of right))
    pure (with_bits bits (with_valid (valid_of left) (with_type t right)))
