-- ===== src/Wire.antt =====
-- `protoFields` of array.go: a protobuf message as its fields in order.
use vortex_go.Base.{
  ℕ, zero, suc, ◌^◌, Option, none, some, List, [], ◌∷◌, ◌++◌, drop, ◌==◌, if◌then◌else◌,
}
use vortex_go.Outcome.{Result, ok, err, invalid, ◌>>=◌}

-- protowire.Type
pub data WireType : Type 0 where
  varint bytes fixed32 fixed64 other : WireType

-- `protowire` is a package outside the repository. Each function returns the value and the number
-- of bytes that it takes, or `none` for its negative error codes.
pub record ProtoWire : Type 0 where
  pub consume_tag : List ℕ → Option (ℕ × WireType × ℕ)
  pub consume_varint : List ℕ → Option (ℕ × ℕ)
  pub consume_bytes : List ℕ → Option (List ℕ × ℕ)
  pub consume_fixed32 : List ℕ → Option (ℕ × ℕ)
  pub consume_fixed64 : List ℕ → Option (ℕ × ℕ)

-- protoValue
pub record ProtoValue : Type 0 where
  pub number : ℕ
  pub content : List ℕ
  pub kind : WireType

-- The map of protoFields as its insertions in order: `(tag, value)`.
abbrev pub ProtoFields : Type 0
ProtoFields = List (ℕ × ProtoValue)

-- fields[tag]
unfoldable pub values_of : ProtoFields → ℕ → List ProtoValue
values_of [] tag = []
values_of ((k, v) ∷ fs) tag = let rest = values_of fs tag in if k == tag then v ∷ rest else rest

abbrev pub max_nodes : ℕ
max_nodes = 2 ^ 20

as_number : WireType → Option (ℕ × ℕ) → Option (ProtoValue × ℕ)
as_number k none = none
as_number k (some (x, n)) = some (record { number = x; content = []; kind = k }, n)

as_content : Option (List ℕ × ℕ) → Option (ProtoValue × ℕ)
as_content none = none
as_content (some (x, n)) = some (record { number = 0; content = x; kind = bytes }, n)

truncated : Option (ProtoValue × ℕ) → Result (ProtoValue × ℕ)
truncated none = err (invalid "truncated protobuf field")
truncated (some p) = ok p

module _ (w : ProtoWire) where
  consume_value : WireType → List ℕ → Result (ProtoValue × ℕ)
  unfolding as_number as_content truncated
  consume_value varint b = truncated (as_number varint (w.consume_varint b))
  consume_value bytes b = truncated (as_content (w.consume_bytes b))
  consume_value fixed32 b = truncated (as_number fixed32 (w.consume_fixed32 b))
  consume_value fixed64 b = truncated (as_number fixed64 (w.consume_fixed64 b))
  consume_value other b = err (invalid "protobuf wire type")

  consume_tag : List ℕ → Result (ℕ × WireType × ℕ)
  consume_tag b = elim (w.consume_tag b) [ none ↦ err (invalid "protobuf tag") | some t ↦ ok t ]

  -- `left` is how many fields may still follow, so `fields > maxNodes` is the clause at zero.
  proto_fields_loop : (left : ℕ) → List ℕ → ProtoFields → Result ProtoFields
  unfolding consume_tag consume_value
  proto_fields_loop left [] out = ok out
  proto_fields_loop zero (b ∷ bs) out = err (invalid "protobuf field count")
  proto_fields_loop (suc left) (b ∷ bs) out = do
    (tag, typ, n) ← consume_tag (b ∷ bs)
    (value, k) ← consume_value typ (drop n (b ∷ bs))
    proto_fields_loop left (drop k (drop n (b ∷ bs))) (out ++ ((tag, value) ∷ []))

  unfoldable pub proto_fields : List ℕ → Result ProtoFields
  unfolding proto_fields_loop
  proto_fields b = proto_fields_loop max_nodes b []
