-- ===== src/Scan/Plan.antt =====
-- The plan of a column (scan.go): `buildFieldPlan`, `buildScalarPlan` and `dictionaryCodeType`
-- flatten a layout tree into pieces of rows and zone references. Row counts are int64 in the code
-- and stay below 2^63: every check below bounds a child by its parent, and parseLayout the root.
pub mod Tiling
pub mod Columns
use vortex_go.Base.{
  ℕ, zero, suc, ◌+◌, ◌-◌, String, Bool, true, false, not, ◌&&◌, ◌||◌, Option, none, some, List, [],
  ◌∷◌, ◌++◌, map, ltb, ◌==◌, if◌then◌else◌,
}
use vortex_go.Outcome.{Result, ok, err, invalid, unsupported, panic, refuse, ◌>>=◌, ◌>>◌}
use vortex_go.Schema.{
  VortexType, Kind, simple, is_kind, kind_of, is_nullable, fields_of, count_fields, field_type,
}
use vortex_go.Layout.{Layout, Layouts, layout, nil, cons, rows, child, count, LayoutId, Header}
use vortex_go.Layout.LayoutId.{struct, chunked, flat, zoned, stats, dict, other}
use vortex_go.Wire.{ProtoWire, ProtoFields, ProtoValue, values_of, proto_fields}
use vortex_go.Zone.{ZoneRef, new_zone_ref}

-- `piece`. `field` is -1 for a scalar (`none`); a dictionary comes with its type.
pub record Piece : Type 0 where
  pub start : ℕ
  pub end : ℕ
  pub node : Layout
  pub dtype : VortexType
  pub field : Option ℕ
  pub dictionary : Option (Layout × VortexType)

-- `columnPlan`
pub record ColumnPlan (A : Type 0) : Type 0 where
  pub pieces : List Piece
  pub zones : List (ZoneRef A)

abbrev pub empty_plan : {A : Type 0} → ColumnPlan A
empty_plan = record { pieces = []; zones = [] }

last_number : ℕ → List ProtoValue → ℕ
last_number d [] = d
last_number d (v ∷ vs) = last_number v.number vs

last_flag : Bool → List ProtoValue → Bool
last_flag d [] = d
last_flag d (v ∷ vs) = last_flag (not (v.number == 0)) vs

code_kind : ℕ → Option Kind
code_kind i =
    if i == 0
    then some Kind.u8
    else if i == 1
    then some Kind.u16
    else if i == 2
    then some Kind.u32
    else if i == 3
    then some Kind.u64
    else if i == 4
    then some Kind.i8
    else if i == 5
    then some Kind.i16
    else if i == 6
    then some Kind.i32
    else if i == 7
    then some Kind.i64
    else none

code_type : ProtoFields → VortexType → Result VortexType
unfolding last_number last_flag code_kind
code_type m t = elim (code_kind (last_number 0 (values_of m 1))) [
  | none ↦ err (invalid "dictionary code type")
  | some k ↦ ok (simple k (last_flag (is_nullable t) (values_of m 2)))
]

-- dictionaryCodeType
unfoldable pub dictionary_code_type : ProtoWire → Header → VortexType → Result VortexType
unfolding code_type
dictionary_code_type w h t = do m ← proto_fields w h.metadata; code_type m t

pub whole : Layout → VortexType → ℕ → Option ℕ → Piece
whole l t start field = record {
  start = start;
  end = start + rows l;
  node = l;
  dtype = t;
  field = field;
  dictionary = none;
}

-- The loop over the code pieces: each takes the dictionary, and none may have one already.
with_dictionary : Layout → VortexType → List Piece → Result (List Piece)
with_dictionary d t [] = ok []
with_dictionary d t (p ∷ ps) = elim p.dictionary [
  | some _ ↦ err (unsupported "nested dictionary layout")
  | none ↦ (do rest ← with_dictionary d t ps; ok (record p { dictionary = some (d, t) } ∷ rest))
]

module _ {A : Type 0} where
  pub add_piece : Piece → ColumnPlan A → ColumnPlan A
  add_piece p out = record out { pieces = out.pieces ++ (p ∷ []) }

  add_zone : ZoneRef A → ColumnPlan A → ColumnPlan A
  add_zone z out = record out { zones = out.zones ++ (z ∷ []) }

  add_codes : Layout → VortexType → ColumnPlan A → ColumnPlan A → Result (ColumnPlan A)
  unfolding with_dictionary
  add_codes d t out codes = do
    ps ← with_dictionary d t codes.pieces
    ok (record out { pieces = out.pieces ++ ps })

  -- The end of a chunked layout: `offset - start` rows were planned.
  pub finish_chunks : (total planned : ℕ) → ColumnPlan A → Result (ColumnPlan A)
  finish_chunks total planned out =
      if planned == total then ok out else err (invalid "chunk row sum")

-- The test of a struct layout's children against the type.
pub struct_mismatch : VortexType → Layouts → Bool
struct_mismatch t cs =
    not (is_kind (kind_of t) Kind.struct)
    || is_nullable t
    || not (count cs == count_fields (fields_of t))

-- The loop that compares each child's rows with the struct's.
same_rows : ℕ → Layouts → Bool
same_rows n nil = true
same_rows n (cons c cs) = rows c == n && same_rows n cs

module _ {A : Type 0} (w : ProtoWire) where
  unfoldable mutual
    unfolding whole add_piece add_zone add_codes finish_chunks

    pub build_scalar_plan : Layout → VortexType → ℕ → ColumnPlan A → Result (ColumnPlan A)
    build_scalar_plan (layout flat h cs) t start out =
        ok (add_piece (whole (layout flat h cs) t start none) out)
    build_scalar_plan (layout chunked h cs) t start out =
        build_scalar_chunks cs t start h.rows start out
    build_scalar_plan (layout zoned h (cons c (cons s nil))) t start out = do
      refuse (not (rows c == h.rows)) (invalid "zoned layout shape")
      build_scalar_plan c t start
          (add_zone (new_zone_ref w (layout zoned h (cons c (cons s nil))) s t start) out)
    build_scalar_plan (layout stats h (cons c (cons s nil))) t start out = do
      refuse (not (rows c == h.rows)) (invalid "zoned layout shape")
      build_scalar_plan c t start
          (add_zone (new_zone_ref w (layout stats h (cons c (cons s nil))) s t start) out)
    build_scalar_plan (layout dict h (cons d (cons c nil))) t start out = do
      refuse (not (rows c == h.rows)) (invalid "dictionary layout shape")
      typ ← dictionary_code_type w h t
      codes ← build_scalar_plan c typ start empty_plan
      add_codes d t out codes
    build_scalar_plan (layout zoned h cs) t start out = err (invalid "zoned layout shape")
    build_scalar_plan (layout stats h cs) t start out = err (invalid "zoned layout shape")
    build_scalar_plan (layout dict h cs) t start out = err (invalid "dictionary layout shape")
    build_scalar_plan (layout struct h cs) t start out = err (unsupported "layout")
    build_scalar_plan (layout (other id) h cs) t start out = err (unsupported "layout")

    -- for _, c := range l.children, from row `offset` of the layout that begins at `start`
    build_scalar_chunks :
        Layouts → VortexType → (start total offset : ℕ) → ColumnPlan A → Result (ColumnPlan A)
    build_scalar_chunks nil t start total offset out = finish_chunks total (offset - start) out
    build_scalar_chunks (cons c cs) t start total offset out = do
      refuse (ltb (total - (offset - start)) (rows c)) (invalid "chunk rows exceed parent")
      out' ← build_scalar_plan c t offset out
      build_scalar_chunks cs t start total (offset + rows c) out'

  build_field : Option Layout → Option VortexType → ℕ → ColumnPlan A → Result (ColumnPlan A)
  unfolding build_scalar_plan
  build_field (some c) (some t) start out = build_scalar_plan c t start out
  build_field none t start out = err panic
  build_field (some c) none start out = err panic

  unfoldable mutual
    unfolding whole add_piece finish_chunks same_rows build_field struct_mismatch

    pub build_field_plan : Layout → VortexType → ℕ → ℕ → ColumnPlan A → Result (ColumnPlan A)
    build_field_plan (layout struct h cs) t field start out = do
      refuse (struct_mismatch t cs) (invalid "struct layout shape")
      refuse (not (same_rows h.rows cs)) (invalid "struct child rows")
      build_field (child cs field) (field_type (fields_of t) field) start out
    build_field_plan (layout chunked h cs) t field start out =
        build_field_chunks cs t field start h.rows start out
    build_field_plan (layout flat h cs) t field start out =
        ok (add_piece (whole (layout flat h cs) t start (some field)) out)
    build_field_plan (layout zoned h cs) t field start out = err (unsupported "root layout")
    build_field_plan (layout stats h cs) t field start out = err (unsupported "root layout")
    build_field_plan (layout dict h cs) t field start out = err (unsupported "root layout")
    build_field_plan (layout (other id) h cs) t field start out = err (unsupported "root layout")

    build_field_chunks :
        Layouts → VortexType → (field start total offset : ℕ) → ColumnPlan A → Result (ColumnPlan A)
    build_field_chunks nil t field start total offset out = finish_chunks total (offset - start) out
    build_field_chunks (cons c cs) t field start total offset out = do
      refuse (ltb (total - (offset - start)) (rows c)) (invalid "chunk rows exceed parent")
      out' ← build_field_plan c t field offset out
      build_field_chunks cs t field start total (offset + rows c) out'
