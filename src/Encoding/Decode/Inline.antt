-- ===== src/Encoding/Decode/Inline.antt =====
-- The encodings that `decode` handles itself (internal/encoding/decode.go), but for those of Numbers.
use vortex_go.Base.{
  ℕ, zero, suc, ◌+◌, ◌-◌, ◌*◌, ◌/◌, ◌%◌, ◌^◌, Bool, true, false, not, ◌||◌, Option, none, some,
  List, [], ◌∷◌, map, drop, length, ltb, leb, ◌==◌, if◌then◌else◌,
}
use vortex_go.Outcome.{Result, ok, err, failed, refuse}
use vortex_go.Outcome.Act.{pure, lift, ◌>>=◌, ◌>>◌}
use vortex_go.Schema.{
  VortexType, vtype, Kind, Fields, no_fields, field, no_storage, stored, kind_of, is_kind, width,
  with_nullable, simple, count_fields, fields_of,
}
use vortex_go.Schema.Arrow.{ArrowTypes, arrow_type}
use vortex_go.Encoding.Word.{read_word}
use vortex_go.Encoding.Proto.{Proto, num}
use vortex_go.Encoding.Values.{
  Values, values, ValuesList, no_values, more_values, Node, node, Decode, children, count_nodes,
  no_slices, bits_of, with_bits, with_valid, with_type, empty, one_buffer, count_children, index,
}
use vortex_go.Encoding.Scalar.{constant}
use vortex_go.Encoding.Numeric.Primitive.{ChildDecoder, child, validity}
use vortex_go.Encoding.Numeric.Patches.{apply_patches}
use vortex_go.Encoding.Numeric.BitPacked.{field_bytes}

-- "vortex.null"
unfoldable pub decode_null : VortexType → ℕ → Decode Values
unfolding empty
decode_null t rows = do
  lift (refuse (not (is_kind (kind_of t) Kind.null)) (failed "null encoding has another type"))
  empty t rows

-- The words of a buffer: `n` are left, `w` bytes each.
unfoldable pub words : (n w : ℕ) → List ℕ → Result (List ℕ)
unfolding read_word
words zero w b = ok []
words (suc n) w b = elim (read_word b w) [
  | err e ↦ err e
  | ok x ↦ elim (words n w (drop w b)) [ err e ↦ err e | ok rest ↦ ok (x ∷ rest) ]
]

has_bytes : List ℕ → Bool
has_bytes [] = false
has_bytes (b ∷ bs) = true

-- n.Metadata
metadata_of : Node → List ℕ
metadata_of (node e m bs cs) = m

-- The bits of a boolean buffer: `n` are left, from bit j on; the length was checked.
unfoldable pub boolean_bits : (n j : ℕ) → List ℕ → Result (List ℕ)
boolean_bits zero j b = ok []
boolean_bits (suc n) j b = elim (index b (j / 8)) [
  | err e ↦ err e
  | ok x ↦ elim (boolean_bits n (j + 1) b) [
    | err e ↦ err e
    | ok rest ↦ ok (x / 2 ^ (j % 8) % 2 ∷ rest)
  ]
]

boolean_bytes : List ℕ → Result (List ℕ)
boolean_bytes [] = ok []
boolean_bytes (x ∷ b) =
    if ltb 1 x
    then err (failed "invalid bytebool")
    else (elim (boolean_bytes b) [ err e ↦ err e | ok rest ↦ ok (x ∷ rest) ])

-- The loop over the mask's bits; a mask of another length would panic or leave rows out.
struct_mask : ℕ → Values → List Bool
struct_mask rows mask = map (λ x. not (x == 0)) (bits_of mask)

module _ (decode_child : ChildDecoder) where
  -- "vortex.primitive"
  unfoldable pub decode_primitive : Node → VortexType → ℕ → Decode Values
  unfolding one_buffer has_bytes metadata_of empty words validity
  decode_primitive n t rows = do
    lift (
        refuse (width (kind_of t) == 0 || is_kind (kind_of t) Kind.bool)
          (failed "nonprimitive dtype"))
    b ← lift (one_buffer n)
    lift (
        refuse (has_bytes (metadata_of n) || not (length b == rows * width (kind_of t)))
          (failed "incomplete or invalid primitive buffer"))
    v ← empty t rows
    bits ← lift (words rows (width (kind_of t)) b)
    valid ← validity decode_child n 0 rows
    pure (with_valid valid (with_bits bits v))

  -- "vortex.bool" and "vortex.bytebool"
  unfoldable pub decode_bool : (packed : Bool) → Node → VortexType → ℕ → Proto → Decode Values
  unfolding one_buffer empty boolean_bits boolean_bytes validity
  decode_bool packed n t rows m = do
    lift (refuse (not (is_kind (kind_of t) Kind.bool)) (failed "nonboolean dtype"))
    b ← lift (one_buffer n)
    lift (refuse (leb 8 (num m 1)) (failed "invalid boolean offset"))
    v ← empty t rows
    lift (
        refuse (if packed then ltb (length b * 8) (rows + num m 1) else not (length b == rows))
          (failed "incomplete boolean buffer"))
    bits ← lift (if packed then boolean_bits rows (num m 1) b else boolean_bytes b)
    valid ← validity decode_child n 0 rows
    pure (with_valid valid (with_bits bits v))

  -- "vortex.constant"
  unfoldable pub decode_constant : Node → VortexType → ℕ → Decode Values
  unfolding one_buffer count_children constant
  decode_constant n t rows = do
    b ← lift (one_buffer n)
    lift (count_children n 0)
    constant t rows b

  -- The loop over the fields, whose children begin at `i`.
  struct_fields : Node → Fields → (i rows : ℕ) → Decode ValuesList
  struct_fields n no_fields i rows = pure no_values
  struct_fields n (field name t fs) i rows = do
    v ← child decode_child n i t rows
    vs ← struct_fields n fs (i + 1) rows
    pure (more_values v vs)

  struct_valid : Node → (off rows : ℕ) → Decode (Option (List Bool))
  unfolding struct_mask
  struct_valid n zero rows = pure none
  struct_valid n (suc k) rows = do
    mask ← child decode_child n 0 (simple Kind.bool false) rows
    pure (some (struct_mask rows mask))

  -- "vortex.struct"
  unfoldable pub decode_struct : Node → VortexType → ℕ → Decode Values
  unfolding struct_fields struct_valid
  decode_struct n t rows = do
    lift (refuse (not (is_kind (kind_of t) Kind.struct)) (failed "nonstruct dtype"))
    lift (
        refuse
          (ltb (count_nodes (children n)) (count_fields (fields_of t))
            || ltb (count_fields (fields_of t) + 1) (count_nodes (children n)))
          (failed "invalid struct child count"))
    valid ← struct_valid n (count_nodes (children n) - count_fields (fields_of t)) rows
    fs ← struct_fields n (fields_of t) (count_nodes (children n) - count_fields (fields_of t)) rows
    pure (values t rows (record no_slices { valid = valid }) fs)

  -- "vortex.masked"
  unfoldable pub decode_masked : Node → VortexType → ℕ → Decode Values
  unfolding validity
  decode_masked n t rows = do
    v ← child decode_child n 0 (with_nullable false t) rows
    valid ← validity decode_child n 1 rows
    pure (with_valid valid (with_type t v))

  -- *t.Storage
  storage_of : VortexType → Result VortexType
  storage_of (vtype i fs no_storage) = err (failed "invalid extension type")
  storage_of (vtype i fs (stored t)) =
      if is_kind i.kind Kind.extension then ok t else err (failed "invalid extension type")

  -- "vortex.extension"
  unfoldable pub decode_extension : ArrowTypes → Node → VortexType → ℕ → Decode Values
  unfolding storage_of arrow_type count_children
  decode_extension arrow n t rows = do
    s ← lift (storage_of t)
    d ← lift (arrow_type arrow t)
    lift (count_children n 1)
    v ← child decode_child n 0 s rows
    pure (with_type t v)

  -- "vortex.sparse"
  unfoldable pub decode_sparse : Node → VortexType → ℕ → Proto → Decode Values
  unfolding one_buffer constant apply_patches field_bytes
  decode_sparse n t rows m = do
    b ← lift (one_buffer n)
    v ← constant t rows b
    (next, patched) ← apply_patches decode_child n 0 (field_bytes m 1) v t false
    pure patched
