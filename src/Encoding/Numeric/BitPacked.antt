-- ===== src/Encoding/Numeric/BitPacked.antt =====
-- `bitpacked` of internal/encoding/numeric.go: integers packed in chunks of 1024, in the FastLanes
-- order.
use vortex_go.Base.{
  ℕ, zero, suc, ◌+◌, ◌-◌, ◌*◌, ◌/◌, ◌%◌, ◌^◌, false, not, ◌||◌, Option, none, some, List, [], ◌∷◌,
  ltb, leb, ◌==◌, drop, length, bit_or, if◌then◌else◌,
}
use vortex_go.Outcome.{Result, ok, err, failed, panic, refuse}
use vortex_go.Outcome.Act.{pure, lift, ◌>>=◌, ◌>>◌}
use vortex_go.Schema.{VortexType, kind_of, is_integer, width}
use vortex_go.Encoding.Word.{word, low_bits, read_word}
use vortex_go.Encoding.Proto.{Proto, num, get}
use vortex_go.Encoding.Values.{
  Values, Node, Decode, with_bits, with_valid, index, one_buffer, empty,
}
use vortex_go.Encoding.Numeric.Primitive.{ChildDecoder, validity}
use vortex_go.Encoding.Numeric.Patches.{apply_patches}
use vortex_go.Encoding.Numeric.Delta.Block.{order}

-- readWord(b[at:], w)
unfoldable pub read_at : List ℕ → (at w : ℕ) → Result ℕ
unfolding read_word
read_at b at w = if ltb (length b) at then err panic else read_word (drop at b) w

-- Where a row of a chunk is packed: the stripe's row and the lane.
unfoldable pub packed_row : (position lanes : ℕ) → Result ℕ
packed_row position lanes =
    elim (index order ((position - position / 128 * 128 - position % lanes) / 16)) [
      | err e ↦ err e
      | ok o ↦ ok (o * 8 + position / 128)
    ]

-- The second word, if the value goes over the end of the first, which gives `lo`.
join_words : List ℕ → (w bw base at shift lo : ℕ) → Result ℕ
unfolding read_at
join_words b w bw base at shift lo =
    if ltb (w * 8 - shift) bw
    then (elim (read_at b (base + at * w) w) [
      | err e ↦ err e
      | ok hi ↦ ok (low_bits (bit_or lo (hi * 2 ^ (w * 8 - shift) % word)) bw)
    ])
    else ok (low_bits lo bw)

-- The value that starts at bit `start` of a lane.
packed_value : List ℕ → (w bw chunk lane start : ℕ) → Result ℕ
unfolding read_at join_words
packed_value b w bw chunk lane start =
    let lanes = 1024 / (w * 8) in
    let base = chunk * bw * 128 in
    let at = start / (w * 8) in
    elim (read_at b (base + (at * lanes + lane) * w) w) [
      | err e ↦ err e
      | ok x ↦
          join_words b w bw base ((at + 1) * lanes + lane) (start % (w * 8))
            (x / 2 ^ (start % (w * 8)))
    ]

-- The body of the loop: the value of the row `at` of all the chunks.
unfoldable pub unpack : List ℕ → (w bw at : ℕ) → Result ℕ
unfolding packed_row packed_value
unpack b w bw at = elim (packed_row (at % 1024) (1024 / (w * 8))) [
  | err e ↦ err e
  | ok row ↦ packed_value b w bw (at / 1024) (at % 1024 % (1024 / (w * 8))) (row * bw)
]

-- The loop over the rows: `n` rows are left, from `at` on.
unfoldable pub unpack_rows : (n at : ℕ) → List ℕ → (w bw : ℕ) → Result (List ℕ)
unfolding unpack
unpack_rows zero at b w bw = ok []
unpack_rows (suc n) at b w bw = elim (unpack b w bw at) [
  | err e ↦ err e
  | ok x ↦ (elim (unpack_rows n (at + 1) b w bw) [ err e ↦ err e | ok xs ↦ ok (x ∷ xs) ])
]

-- m.bytes(i), which is nil unless the field is there with wire type 2
unfoldable pub field_bytes : Proto → ℕ → Option (List ℕ)
field_bytes m i = elim (get m i) [
  | none ↦ none
  | some f ↦ if f.wire == 2 then some f.content else none
]

-- d.bitpacked(n, t, length, m)
unfoldable pub bitpacked : ChildDecoder → Node → VortexType → ℕ → Proto → Decode Values
unfolding unpack_rows field_bytes apply_patches
bitpacked decode_child n t rows m = do
  lift (refuse (not (is_integer (kind_of t))) (failed "bitpacking requires integer type"))
  lift (
      refuse (ltb (width (kind_of t) * 8) (num m 1) || leb 1024 (num m 2))
        (failed "invalid bit width or slice offset"))
  b ← lift (one_buffer n)
  lift (
      refuse (not (length b == (rows + num m 2 + 1023) / 1024 * num m 1 * 128))
        (failed "packed buffer length"))
  out ← empty t rows
  unpacked ← if num m 1 == 0 then pure out else (do
    bits ← lift (unpack_rows rows (num m 2) b (width (kind_of t)) (num m 1))
    pure (with_bits bits out))
  patched ← apply_patches decode_child n 0 (field_bytes m 3) unpacked t false
  let (next, v) = patched
  valid ← validity decode_child n next rows
  pure (with_valid valid v)
