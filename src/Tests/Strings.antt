-- ===== src/Tests/Strings.antt =====
-- The decoders of strings, run-length chunks and timestamps, and `decode`, at small inputs.
use vortex_go.Base.{ℕ, ◌≡◌, ◌≢◌, refl, false, Option, none, some, List, [], ◌∷◌, length, arith}
use vortex_go.Base.Int.{pos}
use vortex_go.Outcome.{Error, ok, err, failed}
use vortex_go.Schema.{VortexType, Kind, simple}
use vortex_go.Encoding.Word.{as_signed}
use vortex_go.Encoding.Values.{
  Encoding, Node, node, Nodes, Values, values, no_values, no_slices, Decoder, valid_of, is_valid,
}
use vortex_go.Encoding.Binary.Fsst.{Symbols, expand_value}
use vortex_go.Encoding.Binary.Fsst.Tokens.{Token, symbol, literal, encode, expand_value-encode}
use vortex_go.Encoding.Binary.OnPair.Tokens.{onpair_value, Spells, onpair_value-Spells}
use vortex_go.Encoding.Numeric.Rle.Rows.{rle_row, FromChunk, rle_row-FromChunk}
use vortex_go.Encoding.Temporal.Parts.{instant, datetime_row, datetime_row-instant}
use vortex_go.Encoding.Binary.Zstd.{Zstd}
use vortex_go.Tests.Pco.{no_floats}
use vortex_go.Encoding.Decode.{Others, decode}
use vortex_go.Encoding.Decode.Nullable.{decode_nonnull}
use vortex_go.Tests.Opening.{arrow}

-- Two symbols, "ab" and "c".
abbrev symbols : Symbols
symbols = record {
  bytes = 97 ∷ 98 ∷ 0 ∷ 0 ∷ 0 ∷ 0 ∷ 0 ∷ 0 ∷ 99 ∷ 0 ∷ 0 ∷ 0 ∷ 0 ∷ 0 ∷ 0 ∷ 0 ∷ [];
  sizes = 2 ∷ 1 ∷ [];
}

abbrev tokens : List Token
tokens = symbol 0 ∷ (literal 9 ∷ (symbol 1 ∷ []))

abbrev text : List ℕ
text = 97 ∷ 98 ∷ 9 ∷ 99 ∷ []

expand_value-encode_example : expand_value symbols 4 (encode tokens) ≡ ok text
expand_value-encode_example = expand_value-encode symbols tokens text (
  1,
  9 ∷ 99 ∷ [],
  omega arith,
  refl,
  refl,
  refl,
  (99 ∷ [], refl, (0, [], omega arith, refl, refl, refl, refl)),
)

abbrev dictionary : List (List ℕ)
dictionary = (97 ∷ []) ∷ ((98 ∷ 99 ∷ []) ∷ [])

spelled : onpair_value dictionary 3 (1 ∷ 0 ∷ []) ≡ ok (98 ∷ 99 ∷ 97 ∷ [])
unfolding onpair_value
spelled = refl

abbrev three : List ℕ
three = 98 ∷ 99 ∷ 97 ∷ []

onpair_value-Spells_example : Spells dictionary (1 ∷ 0 ∷ []) three × (length three ≡ 3)
onpair_value-Spells_example = onpair_value-Spells dictionary 3 (1 ∷ 0 ∷ []) three spelled

-- Row 1 of a chunk with the values 7 and 8.
one_row : rle_row 1 2 1 (7 ∷ 8 ∷ []) (0 ∷ []) (0 ∷ 1 ∷ []) ≡ ok 8
unfolding rle_row
one_row = refl

rle_row-FromChunk_example : FromChunk 1 2 1 (7 ∷ 8 ∷ []) (0 ∷ []) (0 ∷ 1 ∷ []) 8
rle_row-FromChunk_example = rle_row-FromChunk 1 2 1 (7 ∷ 8 ∷ []) (0 ∷ []) (0 ∷ 1 ∷ []) 8 one_row

-- One day, two seconds and three milliseconds.
a_time : datetime_row 1000 (pos 1) (pos 2) (pos 3) ≡ ok 86402003
unfolding datetime_row
a_time = refl

datetime_row-instant_example : as_signed 86402003 8 ≡ instant 1000 (pos 1) (pos 2) (pos 3)
datetime_row-instant_example = datetime_row-instant 1000 (pos 1) (pos 2) (pos 3) 86402003 a_time

-- Two bytes as u8 values.
abbrev leaf : Node
leaf = node Encoding.primitive [] ((5 ∷ 6 ∷ []) ∷ []) Nodes.nil

abbrev byte_type : VortexType
byte_type = simple Kind.u8 false

abbrev no_zstd : Zstd
no_zstd = record {
  Reader = Unit;
  new_reader = λ d. err (failed "no zstd");
  content_size = λ b. ok none;
  decode_all = λ r b. err (failed "no zstd");
}

abbrev others : Others
others = record {
  floats = record { scaled32 = λ f e x. x; scaled64 = λ f e x. x };
  z = no_zstd;
  pco_floats = no_floats;
}

-- The strings "a" and "bc" in a frame, for three rows.
abbrev two_strings : List (List ℕ)
two_strings = (97 ∷ []) ∷ ((98 ∷ 99 ∷ []) ∷ [])

abbrev no_error : ℕ → Option Error
no_error k = none

abbrev decoder : Decoder
decoder = record { remaining = 1000; checks = 0 }

abbrev two_bytes : Values
two_bytes = values byte_type 2 (record no_slices { bits = some (5 ∷ 6 ∷ []) }) no_values

decoded : (decode arrow others no_error 64 leaf byte_type 2 decoder).0 ≡ ok two_bytes
unfolding decode
decoded = refl

decode_nonnull_example : is_valid (valid_of two_bytes) 1 ≢ ok false
decode_nonnull_example =
    decode_nonnull arrow others no_error 64 leaf byte_type 2 decoder two_bytes 1 refl refl decoded
