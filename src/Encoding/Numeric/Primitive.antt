-- ===== src/Encoding/Numeric/Primitive.antt =====
-- What the encodings share: `primitiveType` (types.go), `child` and `validity` (decode.go).
use vortex_go.Base.{
  ℕ, ◌+◌, Bool, false, not, Option, none, some, List, [], ◌∷◌, ◌==◌, if◌then◌else◌,
}
use vortex_go.Outcome.{Result, ok, err, failed}
use vortex_go.Outcome.Act.{pure, raise, lift, ◌>>=◌, ◌>>◌}
use vortex_go.Schema.{VortexType, Kind, simple}
use vortex_go.Encoding.Values.{
  Values, Node, children, count_nodes, node_at, Decode, reserve, is_valid, bits_of, valid_of,
}

unfoldable pub primitive_kind : ℕ → Option Kind
primitive_kind p =
    if p == 0
    then some Kind.u8
    else if p == 1
    then some Kind.u16
    else if p == 2
    then some Kind.u32
    else if p == 3
    then some Kind.u64
    else if p == 4
    then some Kind.i8
    else if p == 5
    then some Kind.i16
    else if p == 6
    then some Kind.i32
    else if p == 7
    then some Kind.i64
    else if p == 8
    then some Kind.f16
    else if p == 9
    then some Kind.f32
    else if p == 10
    then some Kind.f64
    else none

-- primitiveType(p, nullable)
unfoldable pub primitive_type : ℕ → Bool → Result VortexType
unfolding primitive_kind
primitive_type p nullable = elim (primitive_kind p) [
  | none ↦ err (failed "invalid primitive type")
  | some k ↦ ok (simple k nullable)
]

-- The decoder of a child.
abbrev pub ChildDecoder : Type 0
ChildDecoder = Node → VortexType → ℕ → Decode Values

module _ (decode_child : ChildDecoder) where
  -- d.child(n, i, t, count)
  unfoldable pub child : Node → ℕ → VortexType → ℕ → Decode Values
  child n i t count = elim (node_at (children n) i) [
    | none ↦ raise (failed "missing child")
    | some c ↦ decode_child c t count
  ]

  -- The loop over the rows of a validity child.
  to_flags : List ℕ → (i : ℕ) → Option (List Bool) → Result (List Bool)
  to_flags [] i m = ok []
  to_flags (b ∷ bs) i m = elim (is_valid m i) [
    | err e ↦ err e
    | ok v ↦
        if not v
        then err (failed "nullable validity child")
        else (elim (to_flags bs (i + 1) m) [ err e ↦ err e | ok fs ↦ ok (not (b == 0) ∷ fs) ])
  ]

  -- d.validity(n, index, length): the mask, `none` where every row is valid
  unfoldable pub validity : Node → ℕ → ℕ → Decode (Option (List Bool))
  unfolding child to_flags reserve is_valid
  validity n index length =
      let flags = (do
        v ← child n index (simple Kind.bool false) length
        reserve length
        out ← lift (to_flags (bits_of v) 0 (valid_of v))
        pure (some out)) in
      if count_nodes (children n) == index
      then pure none
      else if not (count_nodes (children n) == index + 1)
      then raise (failed "unexpected children")
      else flags
