-- ===== src/Encoding/Numeric/Patches.antt =====
-- `applyPatches` of internal/encoding/numeric.go. The patched values are a result of the function
-- here, where the source writes them in place; an error leaves them to no one.
pub mod Rows
pub mod Overlay
use vortex_go.Base.{
  ℕ, zero, suc, ◌+◌, ◌-◌, Bool, true, false, not, ◌&&◌, ◌||◌, Option, none, some, List, [], ◌∷◌,
  ltb, leb, set, length, if◌then◌else◌,
}
use vortex_go.Outcome.{Result, ok, err, failed, panic, refuse}
use vortex_go.Outcome.Act.{pure, raise, lift, ◌>>=◌, ◌>>◌}
use vortex_go.Schema.{VortexType, kind_of, is_integer, is_signed}
use vortex_go.Encoding.Proto.{Proto, parse_proto, num, has}
use vortex_go.Encoding.Values.{
  Values, Node, Decode, bits_of, with_bits, index, bounded_int, copy_validity_shape,
}
use vortex_go.Encoding.Numeric.Patches.Rows.{rows_of, patch_rows}
use vortex_go.Encoding.Numeric.Primitive.{primitive_type, ChildDecoder, child}

-- `i > 0 && x < c.bits[i-1]` for no chunk: `previous` is 0 for the first.
unfoldable pub is_sorted : (previous : ℕ) → List ℕ → Bool
is_sorted previous [] = true
is_sorted previous (x ∷ xs) = leb previous x && is_sorted x xs

module _ (decode_child : ChildDecoder) where
  -- The optional chunk offsets, which are checked and not used: the child after them.
  chunk_offsets : Node → (next : ℕ) → Proto → Decode ℕ
  chunk_offsets n next m =
      let offsets = (do
        ct ← lift (primitive_type (num m 5) false)
        cn ← lift (bounded_int (num m 4))
        c ← child decode_child n next ct cn
        lift (
            refuse (not (is_integer (kind_of ct)) || is_signed (kind_of ct))
              (failed "invalid patch chunk offsets dtype"))
        lift (refuse (not (is_sorted 0 (bits_of c))) (failed "patch chunk offsets not sorted"))
        pure (next + 1)) in
      if has m 5 then offsets else pure next

  -- d.applyPatches(n, start, raw, out, t, numericOnly): the child after the patches', and `out`
  unfoldable pub apply_patches :
      Node
      → (start : ℕ) → (raw : Option (List ℕ)) → Values
      → VortexType
      → (numeric_only : Bool) → Decode (ℕ × Values)
  unfolding chunk_offsets patch_rows
  apply_patches n start none out t numeric_only = pure (start, out)
  apply_patches n start (some raw) out t numeric_only = do
    m ← lift (parse_proto raw)
    count ← lift (bounded_int (num m 1))
    it ← lift (primitive_type (num m 3) false)
    lift (
        refuse (not (is_integer (kind_of it)) || is_signed (kind_of it))
          (failed "patch indices must be unsigned integers"))
    idx ← child decode_child n start it count
    vals ← child decode_child n (start + 1) t count
    next ← chunk_offsets n (start + 2) m
    shaped ← if numeric_only then pure out else copy_validity_shape out vals
    patched ← lift (patch_rows numeric_only (num m 2) vals none 0 (bits_of idx) shaped)
    pure (next, patched)
