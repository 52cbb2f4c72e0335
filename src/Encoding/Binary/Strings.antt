-- ===== src/Encoding/Binary/Strings.antt =====
-- `decoder.varbin` and `decoder.fsst` of internal/encoding/binary.go: their children, and the loops.
use vortex_go.Base.{
  ℕ, ◌+◌, ◌*◌, Bool, true, false, not, ◌&&◌, Option, List, [], ◌∷◌, String, length, ltb, ◌==◌,
  if◌then◌else◌,
}
use vortex_go.Outcome.{Result, ok, err, failed, refuse}
use vortex_go.Outcome.Act.{pure, lift, ◌>>=◌, ◌>>◌}
use vortex_go.Schema.{VortexType, Kind, simple, is_kind, kind_of, is_integer, is_nullable}
use vortex_go.Encoding.Proto.{Proto, num}
use vortex_go.Encoding.Values.{
  Encoding, Values, Node, node, Decode, buffers, bits_of, valid_of, with_valid, empty, one_buffer,
  index, is_valid, reserve,
}
use vortex_go.Encoding.Numeric.Primitive.{primitive_type, ChildDecoder, child, validity}
use vortex_go.Encoding.Scalar.Utf8.{utf8_valid}
use vortex_go.Encoding.Binary.VarBin.{with_bytes, bytes_of, offset_rows, view_rows, check_utf8}
use vortex_go.Encoding.Binary.Fsst.{Symbols, check_symbols, expand_value}

-- !t.integer() of the type that a primitive type's number names
integer_type : ℕ → (what : String) → Result VortexType
integer_type p what = elim (primitive_type p false) [
  | err e ↦ err e
  | ok t ↦ if is_integer (kind_of t) then ok t else err (failed what)
]

not_string : VortexType → Bool
not_string t = not (is_kind (kind_of t) Kind.utf8) && not (is_kind (kind_of t) Kind.binary)

-- n.Buffers[len(n.Buffers)-1]
last_buffer : List (List ℕ) → Result (List ℕ)
last_buffer [] = err (failed "missing views buffer")
last_buffer (b ∷ []) = ok b
last_buffer (b ∷ c ∷ bs) = last_buffer (c ∷ bs)

utf8_checked : VortexType → Values → Decode Values
unfolding check_utf8
utf8_checked t out = do
  lift (if is_kind (kind_of t) Kind.utf8 then check_utf8 (bytes_of out) 0 (valid_of out) else ok tt)
  pure out

-- n.Encoding == "vortex.varbin"
is_varbin : Node → Bool
is_varbin (node Encoding.varbin metadata bs cs) = true
is_varbin (node e metadata bs cs) = false

module _ (decode_child : ChildDecoder) where
  -- The branch "vortex.varbin"
  by_offsets : Node → ℕ → Proto → Values → Decode Values
  unfolding one_buffer integer_type child offset_rows validity
  by_offsets n count m out = do
    bytes ← lift (one_buffer n)
    ot ← lift (integer_type (num m 1) "offsets require integer type")
    offsets ← child decode_child n 0 ot (count + 1)
    rows ← lift (
        offset_rows "invalid variable binary offsets" (length (bytes_of out)) 0 (bits_of offsets)
          bytes)
    valid ← validity decode_child n 1 count
    pure (with_valid valid (with_bytes rows out))

  -- The branch "vortex.varbinview"
  by_views : Node → ℕ → Values → Decode Values
  unfolding last_buffer validity view_rows
  by_views n count out = do
    views ← lift (last_buffer (buffers n))
    lift (refuse (not (length views == count * 16)) (failed "incomplete views buffer"))
    valid ← validity decode_child n 0 count
    rows ← lift (view_rows (length (bytes_of out)) 0 valid views (buffers n))
    pure (with_valid valid (with_bytes rows out))

  -- d.varbin(n, t, length, m)
  unfoldable pub varbin : Node → VortexType → ℕ → Proto → Decode Values
  unfolding not_string is_varbin by_offsets by_views utf8_checked
  varbin n t count m = do
    lift (refuse (not_string t) (failed "variable binary requires binary/UTF8 type"))
    out ← empty t count
    filled ← (if is_varbin n then by_offsets n count m out else by_views n count out)
    utf8_checked t filled

  -- uint64(d.remaining)
  check_room : ℕ → Decode (Unit {0})
  check_room expected d =
      (refuse (ltb d.remaining expected) (failed "FSST value exceeds allocation limit"), d)

  -- (A child of `count` rows has as many codes as `out` has rows.)
  -- One row that is not null: its value, which the budget pays for.
  fsst_row : Symbols → (is_utf8 : Bool) → (expected : ℕ) → List ℕ → Decode (List ℕ)
  unfolding check_room reserve expand_value utf8_valid
  fsst_row symbols is_utf8 expected codes = do
    check_room expected
    reserve expected
    b ← lift (expand_value symbols expected codes)
    lift (refuse (is_utf8 && not (utf8_valid b)) (failed "FSST invalid UTF8"))
    pure b

  -- The loop over the rows, from row i on; a null row stays empty.
  fsst_rows :
      Symbols
      → (is_utf8 : Bool) → Option (List Bool)
      → (lens : List ℕ) → (i : ℕ) → List (List ℕ)
      → Decode (List (List ℕ))
  unfolding is_valid fsst_row
  fsst_rows symbols is_utf8 valid lens i [] = pure []
  fsst_rows symbols is_utf8 valid lens i (c ∷ cs) = do
    v ← lift (is_valid valid i)
    b ←
        (if v
          then (do expected ← lift (index lens i); fsst_row symbols is_utf8 expected c)
          else pure [])
    rest ← fsst_rows symbols is_utf8 valid lens (i + 1) cs
    pure (b ∷ rest)

  -- The codes and the lengths of the rows, where the codes are a child.
  child_codes : Node → VortexType → VortexType → ℕ → Decode (Values × Values)
  unfolding child
  child_codes n t lt count = do
    codes ← child decode_child n 0 (simple Kind.binary (is_nullable t)) count
    lens ← child decode_child n 1 lt count
    pure (codes, lens)

  -- Where the codes are a third buffer with offsets.
  buffer_codes :
      Node → VortexType → VortexType → (bytes : List ℕ) → ℕ → Proto → Decode (Values × Values)
  unfolding child integer_type offset_rows validity
  buffer_codes n t lt bytes count m = do
    lens ← child decode_child n 0 lt count
    ot ← lift (integer_type (num m 2) "FSST offsets require integer type")
    offsets ← child decode_child n 1 ot (count + 1)
    codes ← empty (simple Kind.binary (is_nullable t)) count
    rows ← lift (
        offset_rows "FSST code offsets out of bounds" (length (bytes_of codes)) 0 (bits_of offsets)
          bytes)
    valid ← validity decode_child n 2 count
    pure (with_valid valid (with_bytes rows codes), lens)

  codes_of : Node → List (List ℕ) → VortexType → VortexType → ℕ → Proto → Decode (Values × Values)
  unfolding child_codes buffer_codes
  codes_of n [] t lt count m = child_codes n t lt count
  codes_of n (bytes ∷ more) t lt count m = buffer_codes n t lt bytes count m

  -- The table and the third buffer, if there is one.
  fsst_buffers : List (List ℕ) → Result (Symbols × List (List ℕ))
  fsst_buffers (a ∷ b ∷ []) = ok (record { bytes = a; sizes = b }, [])
  fsst_buffers (a ∷ b ∷ c ∷ []) = ok (record { bytes = a; sizes = b }, c ∷ [])
  fsst_buffers bs = err (failed "FSST requires 2 or 3 buffers")

  -- d.fsst(n, t, length, m)
  unfoldable pub fsst : Node → VortexType → ℕ → Proto → Decode Values
  unfolding not_string fsst_buffers check_symbols integer_type codes_of fsst_rows
  fsst n t count m = do
    lift (refuse (not_string t) (failed "FSST requires binary/UTF8"))
    (symbols, third) ← lift (fsst_buffers (buffers n))
    lift (check_symbols symbols)
    lt ← lift (integer_type (num m 1) "FSST lengths require integer type")
    (codes, lens) ← codes_of n third t lt count m
    out ← empty t count
    rows ←
        fsst_rows symbols (is_kind (kind_of t) Kind.utf8) (valid_of codes) (bits_of lens) 0
          (bytes_of codes)
    pure (with_valid (valid_of codes) (with_bytes rows out))
