-- ===== src/Encoding/Numeric/Delta.antt =====
-- `delta` of internal/encoding/temporal_delta.go. The block and the two slices of `out` that the
-- loops write are arguments and results here.
pub mod Block
pub mod Lanes
use vortex_go.Base.{
  ℕ, zero, suc, ◌+◌, ◌-◌, ◌*◌, ◌/◌, ◌%◌, Bool, true, false, not, ◌||◌, Option, none, some, List, [],
  ◌∷◌, ltb, leb, ◌==◌, min, max, replicate, if◌then◌else◌,
}
use vortex_go.Outcome.{Result, ok, err, failed, panic, refuse}
use vortex_go.Outcome.Act.{pure, raise, lift, ◌>>=◌, ◌>>◌}
use vortex_go.Schema.{VortexType, kind_of, is_integer, width}
use vortex_go.Encoding.Proto.{Proto, num}
use vortex_go.Encoding.Values.{
  Values, Node, Decode, bits_of, valid_of, with_bits, with_valid, bounded_int, count_children,
  empty, mask,
}
use vortex_go.Encoding.Numeric.Primitive.{ChildDecoder, child}
use vortex_go.Encoding.Numeric.Delta.Block.{Rows, delta_block, emit, remainder, is_present}

-- The loop over the full chunks. `n` chunks are left, from `chunk` on.
unfoldable pub delta_chunks :
    (n chunk : ℕ)
    → (w offset rows : ℕ) → (bases deltas : List ℕ) → Option (List Bool)
    → List ℕ
    → Rows
    → Result Rows
unfolding delta_block emit
delta_chunks zero chunk w offset rows bases deltas m block out = ok out
delta_chunks (suc n) chunk w offset rows bases deltas m block out =
    elim (delta_block (1024 / (w * 8)) 0 chunk w bases deltas block) [
      | err e ↦ err e
      | ok block' ↦
          let start = max (chunk * 1024) offset in
          let end = min ((chunk + 1) * 1024) (offset + rows) in
          elim (emit (end - start) start chunk offset block' m out) [
            | err e ↦ err e
            | ok out' ↦ delta_chunks n (chunk + 1) w offset rows bases deltas m block' out'
          ]
    ]

-- The full chunks, then the rest of the deltas, which have one base.
unfoldable pub delta_rows :
    (count w offset rows : ℕ) → (bases deltas : List ℕ) → Option (List Bool) → Rows → Result Rows
unfolding delta_chunks remainder
delta_rows count w offset rows bases deltas m out =
    elim (delta_chunks (count / 1024) 0 w offset rows bases deltas m (replicate 1024 0) out) [
      | err e ↦ err e
      | ok out' ↦ remainder count w offset rows bases deltas m out'
    ]

-- d.delta(n, t, length, m)
unfoldable pub delta : ChildDecoder → Node → VortexType → ℕ → Proto → Decode Values
unfolding delta_rows is_present
delta decode_child n t rows m = do
  lift (refuse (not (is_integer (kind_of t))) (failed "delta requires integer dtype"))
  lift (count_children n 2)
  count ← lift (bounded_int (num m 1))
  lift (refuse (leb 1024 (num m 2) || ltb count (num m 2 + rows)) (failed "invalid delta slice"))
  bases ←
      child decode_child n 0 t
        (count / 1024 * (1024 / (width (kind_of t) * 8)) + (if count % 1024 == 0 then 0 else 1))
  deltas ← child decode_child n 1 t count
  out ← empty t rows
  masked ← if is_present (valid_of deltas) then mask out else pure out
  result ← lift (
      delta_rows count (width (kind_of t)) (num m 2) rows (bits_of bases) (bits_of deltas)
        (valid_of deltas) (bits_of masked, valid_of masked))
  let (bits, valid) = result
  pure (with_valid valid (with_bits bits masked))
