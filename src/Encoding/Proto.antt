-- ===== src/Encoding/Proto.antt =====
-- The protobuf wire reader of internal/encoding/proto.go, with Go's `binary.Uvarint`.
use vortex_go.Base.{
  ℕ, zero, suc, String, ◌+◌, ◌*◌, ◌/◌, ◌%◌, ◌^◌, Bool, true, false, not, ◌&&◌, Option, none, some,
  List, [], ◌∷◌, ◌++◌, length, take, drop, ltb, ◌==◌, if◌then◌else◌,
}
use vortex_go.Outcome.{Result, ok, err, failed, refuse, ◌>>=◌, ◌>>◌}
use vortex_go.Encoding.Word.{word, read_little}

-- binary.Uvarint from byte `i` on, `x` read so far: the value and the bytes after it, or `none`
-- where it returns n <= 0. `x | (b & 0x7f) << s` joins disjoint bits, so it is a sum.
pub uvarint_from : (i x : ℕ) → List ℕ → Option (ℕ × List ℕ)
uvarint_from i x [] = none
uvarint_from i x (b ∷ bs) =
    let x' = (x + b % 128 * 2 ^ (7 * i)) % word in
    let more = uvarint_from (i + 1) x' bs in
    if i == 10
    then none
    else if ltb b 128
    then (if i == 9 && ltb 1 b then none else some (x', bs))
    else more

unfoldable pub uvarint : List ℕ → Option (ℕ × List ℕ)
unfolding uvarint_from
uvarint b = uvarint_from 0 0 b

-- `protoField`; `wire` is its wire type
pub record ProtoField : Type 0 where
  pub tag : ℕ
  pub wire : ℕ
  pub num : ℕ
  pub content : List ℕ

abbrev pub Proto : Type 0
Proto = List ProtoField

varint_or : String → List ℕ → Result (ℕ × List ℕ)
varint_or m b = elim (uvarint b) [ none ↦ err (failed m) | some p ↦ ok p ]

-- The payload of a field with this wire type: num, data and the bytes that follow.
payload : ℕ → List ℕ → Result (ℕ × List ℕ × List ℕ)
unfolding varint_or
payload wire b =
    if wire == 0
    then (do (v, rest) ← varint_or "invalid protobuf varint" b; ok (v, [], rest))
    else if wire == 1
    then (do
      refuse (ltb (length b) 8) (failed "truncated protobuf fixed64")
      ok (read_little b 8, [], drop 8 b))
    else if wire == 2
    then (do
      (v, rest) ← varint_or "invalid protobuf length" b
      refuse (ltb (length rest) v) (failed "truncated protobuf bytes")
      ok (0, take v rest, drop v rest))
    else if wire == 5
    then (do
      refuse (ltb (length b) 4) (failed "truncated protobuf fixed32")
      ok (read_little b 4, [], drop 4 b))
    else err (failed "unsupported protobuf wire type")

-- One round of parseProto's loop.
pub proto_field : List ℕ → Result (ProtoField × List ℕ)
unfolding varint_or payload
proto_field b = do
  (k, b') ← varint_or "invalid protobuf field" b
  refuse (k / 8 == 0) (failed "invalid protobuf field")
  (v, bytes, rest) ← payload (k % 8) b'
  ok (record { tag = k / 8; wire = k % 8; num = v; content = bytes }, rest)

-- The loop; `left` fields may still be appended, so `len(out) >= 1<<18` is the clause at zero.
pub parse_proto_loop : (left : ℕ) → List ℕ → Result Proto
parse_proto_loop left [] = ok []
parse_proto_loop zero (b ∷ bs) = do
  (f, rest) ← proto_field (b ∷ bs)
  err (failed "too many protobuf fields")
parse_proto_loop (suc left) (b ∷ bs) = do
  (f, rest) ← proto_field (b ∷ bs)
  fs ← parse_proto_loop left rest
  ok (f ∷ fs)

abbrev pub max_fields : ℕ
max_fields = 2 ^ 18

unfoldable pub parse_proto : List ℕ → Result Proto
unfolding proto_field parse_proto_loop
parse_proto b = parse_proto_loop max_fields b

-- p.get(tag): the last field with the tag
unfoldable pub get : Proto → ℕ → Option ProtoField
get [] tag = none
get (f ∷ fs) tag = elim (get fs tag) [
  | some g ↦ some g
  | none ↦ if f.tag == tag then some f else none
]

-- p.num, p.bytes, p.has
unfoldable pub num : Proto → ℕ → ℕ
unfolding get
num p tag = elim (get p tag) [ none ↦ 0 | some f ↦ f.num ]

unfoldable pub bytes : Proto → ℕ → List ℕ
unfolding get
bytes p tag = elim (get p tag) [ none ↦ [] | some f ↦ f.content ]

unfoldable pub has : Proto → ℕ → Bool
unfolding get
has p tag = elim (get p tag) [ none ↦ false | some f ↦ true ]

-- The packed integers of one field; a varint takes a byte at least, so the length is fuel enough.
packed : (fuel : ℕ) → List ℕ → Result (List ℕ)
packed fuel [] = ok []
packed zero (b ∷ bs) = err (failed "out of fuel")
packed (suc fuel) (b ∷ bs) = elim (uvarint (b ∷ bs)) [
  | none ↦ err (failed "invalid packed integer")
  | some (x, rest) ↦ (do xs ← packed fuel rest; ok (x ∷ xs))
]

repeated_field : ProtoField → Result (List ℕ)
unfolding packed
repeated_field f =
    if f.wire == 0
    then ok (f.num ∷ [])
    else if not (f.wire == 2)
    then err (failed "invalid repeated integer")
    else packed (length f.content) f.content

-- p.repeated(tag)
unfoldable pub repeated : Proto → ℕ → Result (List ℕ)
unfolding repeated_field
repeated [] tag = ok []
repeated (f ∷ fs) tag = do
  xs ← if f.tag == tag then repeated_field f else ok []
  rest ← repeated fs tag
  ok (xs ++ rest)
