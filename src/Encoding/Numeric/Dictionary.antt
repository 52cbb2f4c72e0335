-- ===== src/Encoding/Numeric/Dictionary.antt =====
-- `dictionary` of internal/encoding/numeric.go.
use vortex_go.Base.{
  ℕ, ◌+◌, Bool, true, false, not, ◌||◌, Option, none, some, List, [], ◌∷◌, leb, ◌==◌, if◌then◌else◌,
}
use vortex_go.Outcome.{Result, ok, err, failed, refuse}
use vortex_go.Outcome.Act.{pure, lift, ◌>>=◌, ◌>>◌}
use vortex_go.Schema.{VortexType, kind_of, is_integer, info}
use vortex_go.Encoding.Proto.{Proto, num, has}
use vortex_go.Encoding.Values.{
  Values, Node, Decode, bits_of, valid_of, is_valid, bounded_int, count_children, empty, mask,
  copy_validity_shape,
}
use vortex_go.Encoding.Row.{copy_row, clear_row}
use vortex_go.Encoding.Numeric.Primitive.{primitive_type, ChildDecoder, child}

-- The body of the loop at row i, whose code is c: a null code clears the row's validity.
unfoldable pub code_row :
    (codes_valid : Option (List Bool)) → (dict : Values) → (count i c : ℕ) → Values → Result Values
code_row m dict count i c out = elim (is_valid m i) [
  | err e ↦ err e
  | ok valid ↦
      if not valid
      then clear_row out i
      else if leb count c
      then err (failed "dictionary code out of range")
      else copy_row out dict i c
]

-- The loop over the codes, from row i on.
unfoldable pub code_rows :
    (codes_valid : Option (List Bool))
    → (dict : Values) → (count i : ℕ) → List ℕ
    → Values
    → Result Values
unfolding code_row
code_rows m dict count i [] out = ok out
code_rows m dict count i (c ∷ cs) out = elim (code_row m dict count i c out) [
  | err e ↦ err e
  | ok out' ↦ code_rows m dict count (i + 1) cs out'
]

-- v.valid != nil
is_masked : Option (List Bool) → Bool
is_masked none = false
is_masked (some m) = true

-- d.dictionary(n, t, length, m)
unfoldable pub dictionary : ChildDecoder → Node → VortexType → ℕ → Proto → Decode Values
unfolding code_rows is_masked
dictionary decode_child n t rows m = do
  lift (count_children n 2)
  ct ← lift (primitive_type (num m 2) (if has m 3 then not (num m 3 == 0) else (info t).nullable))
  lift (refuse (not (is_integer (kind_of ct))) (failed "dictionary codes must be integers"))
  count ← lift (bounded_int (num m 1))
  codes ← child decode_child n 0 ct rows
  dict ← child decode_child n 1 t count
  out ← empty t rows
  shaped ← copy_validity_shape out dict
  masked ←
      if is_masked (valid_of codes) || is_masked (valid_of dict) then mask shaped else pure shaped
  lift (code_rows (valid_of codes) dict count 0 (bits_of codes) masked)
