-- ===== src/Schema/Arrow.antt =====
-- `Type.ArrowType` of internal/encoding/types.go. Arrow's types are not part of the repository: a
-- parameter, with one operation for each type that the code makes.
use vortex_go.Base.{
  ℕ, ◌+◌, String, Bool, not, ◌&&◌, ◌||◌, List, [], ◌∷◌, drop, length, leb, ltb, ◌==◌, if◌then◌else◌,
}
use vortex_go.Base.Int.{ℤ, pos, ltb_ℤ}
use vortex_go.Outcome.{Result, ok, err, failed, refuse, ◌>>=◌, ◌>>◌}
use vortex_go.Schema.{
  Kind, VortexType, vtype, Fields, no_fields, field, Storage, no_storage, stored, TypeInfo, kind_of,
  is_nullable, is_kind,
}
use vortex_go.Encoding.Word.{read_little}
use text.Mathlib.Text.{◌==◌ as str_eq}

pub data TimeUnit : Type 0 where
  nanosecond microsecond millisecond second : TimeUnit

-- arrow.Field
pub record ArrowField (DataType : Type 0) : Type 0 where
  pub name : String
  pub dtype : DataType
  pub nullable : Bool

-- Constructors that may panic return a result.
pub record ArrowTypes : Type 1 where
  pub DataType : Type 0
  -- arrow.Null, the fixed-width and primitive types, String and Binary, by the kind
  pub plain : Kind → DataType
  pub decimal128 : (precision scale : ℤ) → DataType
  pub decimal256 : (precision scale : ℤ) → DataType
  pub struct_of : List (ArrowField DataType) → Result DataType
  pub list_of : ArrowField DataType → Result DataType
  pub fixed_size_list_of : ℤ → ArrowField DataType → Result DataType
  pub date32 : DataType
  pub date64 : DataType
  pub time32 : TimeUnit → DataType
  pub time64 : TimeUnit → DataType
  pub timestamp : TimeUnit → (zone : List ℕ) → DataType

-- The switch on the tag; at 4 the unit stays a nanosecond.
time_unit : ℕ → TimeUnit
time_unit tag =
    if tag == 1
    then TimeUnit.microsecond
    else if tag == 2
    then TimeUnit.millisecond
    else if tag == 3
    then TimeUnit.second
    else TimeUnit.nanosecond

bad_precision : TypeInfo → Bool
bad_precision i =
    ltb_ℤ i.precision (pos 1)
    || ltb_ℤ (pos 76) i.precision
    || ltb_ℤ i.scale (pos 0)
    || ltb_ℤ i.precision i.scale

module _ (arrow : ArrowTypes) where
  open arrow use {DataType}

  decimal_of : TypeInfo → Result DataType
  unfolding bad_precision
  decimal_of i = do
    refuse (bad_precision i) (failed "invalid decimal precision")
    ok (
        if ltb_ℤ (pos 38) i.precision
        then arrow.decimal256 i.precision i.scale
        else arrow.decimal128 i.precision i.scale)

  date_of : (tag : ℕ) → List ℕ → Kind → Result DataType
  date_of tag metadata k = do
    refuse (not (length metadata == 1)) (failed "invalid date metadata length")
    if (tag == 4) && is_kind k Kind.i32
        then ok arrow.date32
        else if (tag == 2) && is_kind k Kind.i64
        then ok arrow.date64
        else err (failed "invalid storage type or unit")

  time_of : (tag : ℕ) → List ℕ → Kind → Result DataType
  unfolding time_unit
  time_of tag metadata k = do
    refuse (not (length metadata == 1)) (failed "invalid time metadata length")
    if leb 2 tag && leb tag 3 && is_kind k Kind.i32
        then ok (arrow.time32 (time_unit tag))
        else if leb tag 1 && is_kind k Kind.i64
        then ok (arrow.time64 (time_unit tag))
        else err (failed "invalid storage type or unit")

  timestamp_of : (tag : ℕ) → List ℕ → Kind → Result DataType
  unfolding time_unit read_little
  timestamp_of tag metadata k = do
    refuse (ltb (length metadata) 3 || ltb 3 tag || not (is_kind k Kind.i64))
        (failed "invalid timestamp metadata/storage")
    refuse (not (length metadata == 3 + read_little (drop 1 metadata) 2))
        (failed "truncated timestamp timezone")
    ok (arrow.timestamp (time_unit tag) (drop 3 metadata))

  extension_of : String → List ℕ → Kind → Result DataType
  unfolding date_of time_of timestamp_of
  extension_of id [] k = err (failed "extension has no metadata")
  extension_of id (tag ∷ rest) k = do
    refuse (ltb 4 tag) (failed "invalid temporal unit")
    if str_eq id "vortex.date"
        then date_of tag (tag ∷ rest) k
        else if str_eq id "vortex.time"
        then time_of tag (tag ∷ rest) k
        else if str_eq id "vortex.timestamp"
        then timestamp_of tag (tag ∷ rest) k
        else err (failed "unsupported extension")

  list_type : TypeInfo → ArrowField DataType → Result DataType
  list_type i f =
      if is_kind i.kind Kind.list
      then arrow.list_of f
      else if ltb_ℤ i.list_size (pos 0)
      then err (failed "negative list size")
      else arrow.fixed_size_list_of i.list_size f

  item : DataType → VortexType → ArrowField DataType
  item dt t = record { name = "item"; dtype = dt; nullable = is_nullable t }

  unfoldable mutual
    unfolding decimal_of extension_of list_type item

    -- t.ArrowType()
    pub arrow_type : VortexType → Result DataType
    arrow_type (vtype i fs s) = elim i.kind [
      | Kind.decimal ↦ decimal_of i
      | Kind.struct ↦ arrow_fields fs >>= λ as'. arrow.struct_of as'
      | Kind.list ↦ arrow_list i s
      | Kind.fixed_size_list ↦ arrow_list i s
      | Kind.extension ↦ arrow_extension i s
      | k ↦ ok (arrow.plain k)
    ]

    arrow_fields : Fields → Result (List (ArrowField DataType))
    arrow_fields no_fields = ok []
    arrow_fields (field name t fs) = do
      dt ← arrow_type t
      rest ← arrow_fields fs
      ok (record { name = name; dtype = dt; nullable = is_nullable t } ∷ rest)

    arrow_list : TypeInfo → Storage → Result DataType
    arrow_list i no_storage = err (failed "list has no element type")
    arrow_list i (stored t) = do dt ← arrow_type t; list_type i (item dt t)

    arrow_extension : TypeInfo → Storage → Result DataType
    arrow_extension i no_storage = err (failed "extension has no storage type")
    arrow_extension i (stored t) = extension_of i.extension_id i.metadata (kind_of t)
