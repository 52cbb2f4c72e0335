-- ===== src/Encoding/Decode.antt =====
-- `decoder.decode` of internal/encoding/decode.go: the checks of every node, the dispatch over the
-- encodings, and the check of the declared nullability. Floating point and the decompressor of zstd
-- are parameters.
pub mod Inline
pub mod Numbers
pub mod Nullable
use vortex_go.Base.{
  ℕ, zero, suc, ◌+◌, Bool, true, false, not, ◌&&◌, Option, none, some, List, [], ◌∷◌, ltb,
}
use vortex_go.Outcome.{Error, Result, ok, err, failed, refuse}
use vortex_go.Outcome.Act.{pure, raise, lift, answer_of, ◌>>=◌, ◌>>◌}
use vortex_go.Schema.{VortexType, Kind, kind_of, is_kind, is_nullable}
use vortex_go.Schema.Arrow.{ArrowTypes}
use vortex_go.Encoding.Proto.{Proto, parse_proto}
use vortex_go.Encoding.Values.{Encoding, Node, node, Values, Decode, Decoder, valid_of, max_rows}
use vortex_go.Encoding.Numeric.Primitive.{ChildDecoder}
use vortex_go.Encoding.Numeric.Sequence.{sequence}
use vortex_go.Encoding.Numeric.RunEnd.{runend}
use vortex_go.Encoding.Numeric.Rle.{rle}
use vortex_go.Encoding.Numeric.Dictionary.{dictionary}
use vortex_go.Encoding.Numeric.Delta.{delta}
use vortex_go.Encoding.Numeric.BitPacked.{bitpacked}
use vortex_go.Encoding.Temporal.{datetime_parts}
use vortex_go.Encoding.Binary.Strings.{varbin, fsst}
use vortex_go.Encoding.Binary.OnPair.{onpair}
use vortex_go.Encoding.Binary.Decimal.{decimal}
use vortex_go.Encoding.Binary.Zstd.{Zstd, zstd}
use vortex_go.Pco.Words as Pco
use vortex_go.Encoding.Binary.PcoChunks.{pco}
use vortex_go.Encoding.Numeric.Alp.{Floats, alp, alprd}
use vortex_go.Encoding.Decode.Inline.{
  decode_null, decode_primitive, decode_bool, decode_constant, decode_struct, decode_masked,
  decode_extension, decode_sparse,
}
use vortex_go.Encoding.Decode.Numbers.{decode_decimal_parts, decode_for, decode_zigzag}

abbrev Decoding : Type 0
Decoding = ChildDecoder → Node → VortexType → ℕ → Proto → Decode Values

-- What the decoders take from elsewhere: floating point, and zstd.
pub record Others : Type 1 where
  pub floats : Floats
  pub z : Zstd
  pub pco_floats : Pco.Floats

-- Whether a mask has a row that is not valid.
has_null : Option (List Bool) → Bool
has_null none = false
has_null (some []) = false
has_null (some (false ∷ bs)) = true
has_null (some (true ∷ bs)) = has_null (some bs)

module _ (arrow : ArrowTypes) (others : Others) (ctx_err : ℕ → Option Error) where
  -- The switch over the encodings.
  dispatch : Encoding → Decoding
  unfolding decode_null decode_primitive decode_bool decode_constant decode_struct varbin dictionary
      decode_masked decode_extension decode_decimal_parts bitpacked decode_for decode_zigzag
      sequence runend rle decode_sparse fsst datetime_parts delta decimal onpair zstd alp alprd pco
  dispatch Encoding.null decode n t rows m = decode_null t rows
  dispatch Encoding.primitive decode n t rows m = decode_primitive decode n t rows
  dispatch Encoding.bool decode n t rows m = decode_bool decode true n t rows m
  dispatch Encoding.bytebool decode n t rows m = decode_bool decode false n t rows m
  dispatch Encoding.constant decode n t rows m = decode_constant decode n t rows
  dispatch Encoding.struct decode n t rows m = decode_struct decode n t rows
  dispatch Encoding.varbin decode n t rows m = varbin decode n t rows m
  dispatch Encoding.varbinview decode n t rows m = varbin decode n t rows m
  dispatch Encoding.dict decode n t rows m = dictionary decode n t rows m
  dispatch Encoding.masked decode n t rows m = decode_masked decode n t rows
  dispatch Encoding.extension decode n t rows m = decode_extension decode arrow n t rows
  dispatch Encoding.decimal decode n t rows m = decimal arrow decode n t rows m
  dispatch Encoding.decimal_byte_parts decode n t rows m = decode_decimal_parts decode n t rows m
  dispatch Encoding.bitpacked decode n t rows m = bitpacked decode n t rows m
  dispatch Encoding.frame_of_reference decode n t rows m = decode_for decode n t rows
  dispatch Encoding.zigzag decode n t rows m = decode_zigzag decode n t rows
  dispatch Encoding.sequence decode n t rows m = sequence n t rows m
  dispatch Encoding.runend decode n t rows m = runend decode n t rows m
  dispatch Encoding.rle decode n t rows m = rle decode n t rows m
  dispatch Encoding.sparse decode n t rows m = decode_sparse decode n t rows m
  dispatch Encoding.alp decode n t rows m = alp others.floats decode n t rows m
  dispatch Encoding.alprd decode n t rows m = alprd decode n t rows m
  dispatch Encoding.fsst decode n t rows m = fsst decode n t rows m
  dispatch Encoding.onpair decode n t rows m = onpair decode n t rows m
  dispatch Encoding.zstd decode n t rows m = zstd others.z decode n t rows m
  dispatch Encoding.datetimeparts decode n t rows m = datetime_parts arrow decode n t rows m
  dispatch Encoding.delta decode n t rows m = delta decode n t rows m
  dispatch Encoding.pco decode n t rows m = pco others.pco_floats decode n t rows m
  dispatch Encoding.other decode n t rows m = raise (failed "unsupported encoding")

  -- d.ctx.Err(), asked for the first, second, ... time
  ask : Decode (Unit {0})
  unfolding answer_of
  ask d = answer_of (ctx_err d.checks, record d { checks = d.checks + 1 })

  -- The deferred check of a result.
  checked : VortexType → Values → Decode Values
  unfolding has_null
  checked t v = do
    lift (
        refuse (not (is_nullable t) && not (is_kind (kind_of t) Kind.null) && has_null (valid_of v))
          (failed "null for nonnullable type"))
    pure v

  -- d.decode(n, t, length) of a node that is not nil, where `levels` more levels may open: 64 - depth
  unfoldable pub decode : (levels : ℕ) → ChildDecoder
  unfolding ask parse_proto dispatch checked
  decode zero n t rows = do ask; raise (failed "array nesting exceeds limit")
  decode (suc levels) (node e metadata bs cs) t rows = do
    ask
    lift (refuse (ltb max_rows rows) (failed "invalid array length"))
    m ← lift (parse_proto metadata)
    v ← dispatch e (decode levels) (node e metadata bs cs) t rows m
    checked t v
