-- ===== src/Encoding/Scalar.antt =====
-- `constant` of internal/encoding/decode.go: an array of one scalar, from its protobuf form.
pub mod Utf8
use vortex_go.Base.{
  ℕ, zero, suc, ◌+◌, ◌-◌, ◌*◌, ◌/◌, ◌^◌, Bool, true, false, not, ◌&&◌, ◌||◌, Option, none, some,
  List, [], ◌∷◌, ◌++◌, length, get_or, replicate, drop, map, ltb, leb, ◌==◌, if◌then◌else◌,
}
use vortex_go.Base.Int.{eqb_ℤ}
use vortex_go.Outcome.{Result, ok, err, failed, refuse, panic}
use vortex_go.Outcome.Act.{pure, raise, lift, ◌>>=◌, ◌>>◌}
use vortex_go.Schema.{
  VortexType, Kind, Fields, no_fields, field, Storage, stored, no_storage, vtype, kind_of, width,
  is_kind, is_nullable, is_signed, is_integer, count_fields,
}
use vortex_go.Encoding.Word.{low_bits, as_signed, unzigzag, word}
use vortex_go.Encoding.Proto.{Proto, ProtoField, parse_proto, get, num, bytes, has}
use vortex_go.Encoding.Values.{
  Values, ValuesList, values, no_values, more_values, Slices, no_slices, Decode, empty,
  decimal_width, with_type, with_valid, with_bits, slices,
}
use Utf8.{utf8_valid}

-- The word of a primitive scalar, before it is cut to the type's width.
unfoldable pub scalar_word : Kind → Proto → Result ℕ
unfolding has num as_signed unzigzag
scalar_word k m =
    if is_kind k Kind.bool
    then (if not (has m 2) || ltb 1 (num m 2)
        then err (failed "invalid boolean scalar")
        else ok (num m 2))
    else if is_signed k
    then (if not (has m 3)
        then err (failed "invalid signed scalar")
        else if not
            (eqb_ℤ (as_signed (unzigzag (num m 3)) (width k)) (as_signed (unzigzag (num m 3)) 8))
        then err (failed "signed scalar overflow")
        else ok (unzigzag (num m 3)))
    else if is_integer k
    then (if not (has m 4)
        then err (failed "invalid unsigned scalar")
        else if ltb (2 ^ (width k * 8) - 1) (num m 4)
        then err (failed "unsigned scalar overflow")
        else ok (num m 4))
    else if is_kind k Kind.f16
    then (if not (has m 10) then err (failed "invalid f16 scalar") else ok (num m 10))
    else if is_kind k Kind.f32
    then (if not (has m 5) then err (failed "invalid f32 scalar") else ok (num m 5))
    else if is_kind k Kind.f64
    then (if not (has m 6) then err (failed "invalid f64 scalar") else ok (num m 6))
    else err (failed "unsupported scalar type")

byte_scalar : Bool → Option ProtoField → Result (List ℕ)
unfolding utf8_valid
byte_scalar text none = err (failed "invalid byte scalar")
byte_scalar text (some f) =
    if text && not (utf8_valid f.content) then err (failed "invalid UTF8 scalar") else ok f.content

-- The bytes of one decimal value, extended by its sign to `w` bytes.
sign_extended : ℕ → List ℕ → List ℕ
sign_extended w b =
    b ++ replicate (w - length b) (if leb 128 (get_or b (length b - 1) 0) then 255 else 0)

decimal_scalar : ℕ → Option ProtoField → Result (List ℕ)
unfolding sign_extended
decimal_scalar w none = err (failed "decimal scalar lacks bytes")
decimal_scalar w (some f) =
    if ltb w (length f.content) || length f.content == 0
    then err (failed "invalid decimal scalar size")
    else ok (sign_extended w f.content)

repeated_bytes : ℕ → List ℕ → List ℕ
repeated_bytes zero b = []
repeated_bytes (suc n) b = b ++ repeated_bytes n b

with_slices : Slices → Values → Values
with_slices s (values t n r fs) = values t n s fs

-- A scalar that is no struct, in an array that is empty so far.
fill : VortexType → ℕ → Proto → Values → Result Values
unfolding scalar_word byte_scalar decimal_scalar repeated_bytes with_slices decimal_width
fill t n m v =
    let w = decimal_width t in
    let bytes_tag = if is_kind (kind_of t) Kind.utf8 then 7 else 8 in
    if is_kind (kind_of t) Kind.decimal
    then (elim (decimal_scalar w (get m 8)) [
      | err e ↦ err e
      | ok b ↦ ok (with_slices (record (slices v) { wide = some (repeated_bytes n b) }) v)
    ])
    else if is_kind (kind_of t) Kind.utf8 || is_kind (kind_of t) Kind.binary
    then (elim (byte_scalar (is_kind (kind_of t) Kind.utf8) (get m bytes_tag)) [
      | err e ↦ err e
      | ok b ↦ ok (with_slices (record (slices v) { bytes = some (replicate n b) }) v)
    ])
    else (elim (scalar_word (kind_of t) m) [
      | err e ↦ err e
      | ok x ↦ ok (with_bits (replicate n (low_bits x (width (kind_of t) * 8))) v)
    ])

abbrev proto_length : Proto → ℕ
proto_length fs = length fs

is_empty : Proto → Bool
is_empty [] = true
is_empty (f ∷ fs) = false

with_fields : ValuesList → Values → Values
with_fields fs (values t n s gs) = values t n s fs

-- d.constant(t, length, b)
unfoldable mutual
  unfolding fill is_empty with_fields

  pub constant : VortexType → ℕ → List ℕ → Decode Values
  constant (vtype i fs s) n b =
      let t = vtype i fs s in
      let of_storage = (do v ← constant_storage s n b; pure (with_type t v)) in
      let of_fields = λ (m : Proto) (v : Values). (do
        list ← lift (parse_proto (bytes m 9))
        lift (refuse (not (proto_length list == count_fields fs)) (failed "invalid struct scalar"))
        vs ← constant_fields fs list n
        pure (with_fields vs v)) in
      let direct = (do
        m ← lift (parse_proto b)
        v ← empty t n
        if is_empty m || has m 1
            then (if not i.nullable && not (is_kind i.kind Kind.null)
                then raise (failed "null scalar for nonnullable type")
                else pure (with_valid (some (replicate n false)) v))
            else if is_kind i.kind Kind.struct
            then of_fields m v
            else lift (fill t n m v)) in
      if is_kind i.kind Kind.extension then of_storage else direct

  pub constant_storage : Storage → ℕ → List ℕ → Decode Values
  constant_storage no_storage n b = raise (failed "extension missing storage")
  constant_storage (stored t) n b = constant t n b

  pub constant_fields : Fields → Proto → ℕ → Decode ValuesList
  constant_fields no_fields ps n = pure no_values
  constant_fields (field name t fs) [] n = raise panic
  constant_fields (field name t fs) (p ∷ ps) n = do
    v ← constant t n p.content
    vs ← constant_fields fs ps n
    pure (more_values v vs)
