-- ===== src/Encoding/Numeric/RunEnd.antt =====
-- `runend` of internal/encoding/numeric.go.
pub mod Rows
pub mod Covered
use vortex_go.Base.{
  ℕ, zero, suc, ◌+◌, ◌-◌, ◌^◌, Bool, true, false, not, ◌&&◌, ◌||◌, List, [], ◌∷◌, get_or, ltb, leb,
  ◌==◌, drop, length, if◌then◌else◌,
}
use vortex_go.Outcome.{Result, ok, err, failed, refuse}
use vortex_go.Outcome.Act.{pure, raise, lift, ◌>>=◌, ◌>>◌}
use vortex_go.Schema.{VortexType, kind_of, is_integer}
use vortex_go.Encoding.Word.{word}
use vortex_go.Encoding.Proto.{Proto, num}
use vortex_go.Encoding.Values.{
  Values, Node, Decode, bits_of, bounded_int, count_children, empty, copy_validity_shape,
}
use vortex_go.Encoding.Numeric.RunEnd.Rows.{strictly_increasing, runend_rows}
use vortex_go.Encoding.Numeric.Primitive.{primitive_type, ChildDecoder, child}

-- d.runend(n, t, length, m)
unfoldable pub runend : ChildDecoder → Node → VortexType → ℕ → Proto → Decode Values
unfolding strictly_increasing runend_rows
runend decode_child n t rows m = do
  lift (count_children n 2)
  ct ← lift (primitive_type (num m 1) false)
  lift (refuse (not (is_integer (kind_of ct))) (failed "run ends require integer type"))
  n_runs ← lift (bounded_int (num m 2))
  ends ← child decode_child n 0 ct n_runs
  vals ← child decode_child n 1 t n_runs
  out ← empty t rows
  out' ← copy_validity_shape out vals
  lift (refuse (ltb (word - 1 - rows) (num m 3)) (failed "run end offset overflow"))
  lift (
      refuse (not (strictly_increasing 0 (bits_of ends)))
        (failed "run ends not strictly increasing"))
  lift (runend_rows rows 0 (bits_of ends) 0 (num m 3) vals out')
