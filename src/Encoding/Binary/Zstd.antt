-- ===== src/Encoding/Binary/Zstd.antt =====
-- `decoder.zstd` of internal/encoding/binary.go. The decompressor is a parameter.
pub mod Frames
use vortex_go.Base.{
  ℕ, zero, suc, ◌+◌, ◌-◌, Bool, true, false, not, ◌&&◌, ◌||◌, Option, none, some, List, [], ◌∷◌,
  ◌++◌, length, ltb, ◌==◌, if◌then◌else◌,
}
use vortex_go.Outcome.{Result, ok, err, failed, panic, refuse}
use vortex_go.Outcome.Act.{pure, raise, lift, ◌>>=◌, ◌>>◌}
use vortex_go.Schema.{VortexType, Kind, is_kind, kind_of, width}
use vortex_go.Encoding.Proto.{Proto, ProtoField, parse_proto, num}
use vortex_go.Encoding.Values.{
  Values, Node, Decode, buffers, slices, with_bits, with_valid, empty, reserve,
}
use vortex_go.Encoding.Numeric.Primitive.{ChildDecoder, validity}
use vortex_go.Encoding.Binary.VarBin.{with_bytes}
use vortex_go.Encoding.Binary.Zstd.Frames.{take_word, take_string, frame_rows, rest_rows}

-- github.com/klauspost/compress/zstd, with the options of the code
pub record Zstd : Type 1 where
  pub Reader : Type 0
  -- zstd.NewReader with a dictionary or none
  pub new_reader : Option (List ℕ) → Result Reader
  -- header.Decode: the frame's content size, where the header has it
  pub content_size : List ℕ → Result (Option ℕ)
  -- z.DecodeAll
  pub decode_all : Reader → List ℕ → Result (List ℕ)

-- The dictionary, where the metadata give its size, and the frames' buffers.
split_dictionary : (size : ℕ) → List (List ℕ) → Result (Option (List ℕ) × List (List ℕ))
split_dictionary zero bs = ok (none, bs)
split_dictionary (suc k) [] = err (failed "invalid Zstd dictionary size")
split_dictionary (suc k) (b ∷ bs) =
    if length b == suc k then ok (some b, bs) else err (failed "invalid Zstd dictionary size")

-- The metadata of the frames: the fields with tag 2.
frames_of : Proto → Result (List Proto)
unfolding parse_proto
frames_of [] = ok []
frames_of (f ∷ fs) =
    let rest = frames_of fs in
    if f.tag == 2
    then (elim (parse_proto f.content) [
      | err e ↦ err e
      | ok p ↦ elim rest [ err e ↦ err e | ok ps ↦ ok (p ∷ ps) ]
    ])
    else rest

same_size : Option ℕ → ℕ → Bool
same_size none size = false
same_size (some n) size = n == size

-- uint64(d.remaining)
check_room : ℕ → Decode (Unit {0})
check_room size d =
    (refuse (ltb d.remaining size) (failed "Zstd output exceeds allocation limit"), d)

module _ (z : Zstd) where
  -- The bytes of one frame.
  frame_bytes : z.Reader → (size : ℕ) → List ℕ → Decode (List ℕ)
  unfolding same_size check_room reserve
  frame_bytes r size b = do
    check_room size
    reserve size
    c ← lift (z.content_size b)
    lift (refuse (not (same_size c size)) (failed "Zstd frame content size mismatch"))
    raw ← lift (z.decode_all r b)
    lift (refuse (not (length raw == size)) (failed "Zstd decoded size mismatch"))
    pure raw

  module _ {A : Type 0} (take_value : List ℕ → Result (A × List ℕ)) (blank : A)
      (valid : Option (List Bool)) where
    -- The loop over the frames, where `n` rows are left from row on, and the nulls at the end.
    frames_rows : z.Reader → List Proto → List (List ℕ) → (n row : ℕ) → Decode (List A)
    unfolding frame_bytes frame_rows rest_rows num
    frames_rows r [] bs n row = lift (rest_rows take_value blank valid n row)
    frames_rows r (f ∷ fs) [] n row = raise panic
    frames_rows r (f ∷ fs) (b ∷ bs) n row = do
      raw ← frame_bytes r (num f 1) b
      (values, count) ← lift (frame_rows take_value blank valid n row raw)
      lift (
          refuse (not (num f 2 == 0) && not (num f 2 == count))
            (failed "Zstd frame value count mismatch"))
      rest ← frames_rows r fs bs (n - length values) (row + length values)
      pure (values ++ rest)

  zstd_rows :
      z.Reader
      → List Proto
      → List (List ℕ)
      → VortexType
      → ℕ
      → Values
      → Option (List Bool)
      → Decode Values
  unfolding frames_rows take_word take_string
  zstd_rows r fs bs t rows out valid = elim (slices out).bits [
    | some b ↦ (do
      xs ← frames_rows (take_word (width (kind_of t))) 0 valid r fs bs rows 0
      pure (with_valid valid (with_bits xs out)))
    | none ↦ (do
      xs ← frames_rows (take_string (is_kind (kind_of t) Kind.utf8)) [] valid r fs bs rows 0
      pure (with_valid valid (with_bytes xs out)))
  ]

  -- d.zstd(n, t, length, m)
  unfoldable pub zstd : ChildDecoder → Node → VortexType → ℕ → Proto → Decode Values
  unfolding empty validity split_dictionary frames_of zstd_rows num
  zstd decode_child n t rows m = do
    out ← empty t rows
    lift (
        refuse
          (not (is_kind (kind_of t) Kind.utf8)
            && not (is_kind (kind_of t) Kind.binary)
            && width (kind_of t) == 0)
          (failed "unsupported Zstd type"))
    valid ← validity decode_child n 0 rows
    (dictionary, bs) ← lift (split_dictionary (num m 1) (buffers n))
    r ← lift (z.new_reader dictionary)
    fs ← lift (frames_of m)
    lift (refuse (not (length fs == length bs)) (failed "Zstd frame count mismatch"))
    zstd_rows r fs bs t rows out valid
