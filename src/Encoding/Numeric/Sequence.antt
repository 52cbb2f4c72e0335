-- ===== src/Encoding/Numeric/Sequence.antt =====
-- `sequence` and `sequenceStep` of internal/encoding/numeric.go.
pub mod Moves
pub mod Exact
use vortex_go.Base.{
  ℕ, zero, suc, ◌+◌, ◌-◌, ◌*◌, ◌%◌, ◌^◌, Bool, true, false, not, List, [], ◌∷◌, leb, if◌then◌else◌,
}
use vortex_go.Base.Int.{ℤ, pos, negsuc, ◌+ℤ◌, ◌*ℤ◌}
use vortex_go.Outcome.{Result, ok, err, failed, refuse}
use vortex_go.Outcome.Act.{pure, lift, ◌>>=◌, ◌>>◌}
use vortex_go.Schema.{VortexType, kind_of, is_integer, is_signed, width}
use vortex_go.Encoding.Word.{word, low_bits, as_signed, unzigzag}
use vortex_go.Encoding.Proto.{Proto, parse_proto, num, bytes, has}
use vortex_go.Encoding.Values.{
  Values, Node, Decode, with_bits, is_valid, valid_of, bits_of, index, count_children, empty,
}
use vortex_go.Encoding.Scalar.{constant}

-- sequenceStep(b): the raw pattern of the step, and whether it was signed
step_of_fields : Proto → Result (ℕ × Bool)
step_of_fields [] = err (failed "null sequence scalar")
step_of_fields (f ∷ fs) =
    if has (f ∷ fs) 1
    then err (failed "null sequence scalar")
    else if has (f ∷ fs) 3
    then ok (unzigzag (num (f ∷ fs) 3), true)
    else if has (f ∷ fs) 4
    then ok (num (f ∷ fs) 4, false)
    else err (failed "invalid sequence step scalar")

unfoldable pub sequence_step : List ℕ → Result (ℕ × Bool)
unfolding step_of_fields
sequence_step b = elim (parse_proto b) [ err e ↦ err e | ok m ↦ step_of_fields m ]

-- a.SetInt64 or a.SetUint64
unfoldable pub as_integer : Bool → ℕ → ℕ → ℤ
unfolding as_signed
as_integer signed x w = if signed then as_signed x w else pos x

-- Is a value outside the type's range? `last.Cmp(lo) < 0 || last.Cmp(hi) > 0`, and for an unsigned
-- type `last.Sign() < 0 || last.BitLen() > nbits`.
unfoldable pub out_of_range : Bool → ℕ → ℤ → Bool
out_of_range true w (pos x) = leb (2 ^ (w * 8 - 1)) x
out_of_range true w (negsuc x) = leb (2 ^ (w * 8 - 1)) x
out_of_range false w (pos x) = leb (2 ^ (w * 8)) x
out_of_range false w (negsuc x) = true

-- The last element, in exact arithmetic.
unfoldable pub last_element : ℤ → ℤ → (length : ℕ) → ℤ
unfolding ◌+ℤ◌ ◌*ℤ◌
last_element a b length = a +ℤ b *ℤ pos (length - 1)

-- out.bits[i] = (base.bits[0] + uint64(i)*step) & mask
unfoldable pub sequence_bits : (n i base step w : ℕ) → List ℕ
sequence_bits zero i base step w = []
sequence_bits (suc n) i base step w =
    low_bits ((base + i * step % word) % word) (w * 8) ∷ sequence_bits n (i + 1) base step w

-- The values of a sequence, or the overflow error.
unfoldable pub sequence_values : Bool → (w base step : ℕ) → Bool → (length : ℕ) → Result (List ℕ)
unfolding as_integer last_element sequence_bits out_of_range
sequence_values signed w base step step_signed length =
    if out_of_range signed w
      (last_element (as_integer signed base w) (as_integer step_signed step 8) length)
    then err (failed "sequence overflow")
    else ok (sequence_bits length 0 base step w)

-- d.sequence(n, t, length, m)
unfoldable pub sequence : Node → VortexType → ℕ → Proto → Decode Values
unfolding sequence_values sequence_step
sequence n t length m = do
  lift (refuse (not (is_integer (kind_of t))) (failed "sequence requires integer type"))
  lift (count_children n 0)
  base ← constant t 1 (bytes m 1)
  (step, step_signed) ← lift (sequence_step (bytes m 2))
  valid ← lift (is_valid (valid_of base) 0)
  lift (refuse (not valid) (failed "null sequence scalar"))
  out ← empty t length
  first ← lift (index (bits_of base) 0)
  bits ←
      lift
        (sequence_values (is_signed (kind_of t)) (width (kind_of t)) first step step_signed length)
  pure (with_bits bits out)
