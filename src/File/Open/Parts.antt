-- ===== src/File/Open/Parts.antt =====
-- The parts of `Open` of file.go that read nothing: the trailer, the tests of the postscript's
-- segments, and the parsing of the three segments.
use vortex_go.Base.{
  ℕ, ◌+◌, ◌-◌, Bool, false, not, ◌&&◌, ◌||◌, Option, none, some, List, [], ◌∷◌, drop, length, ltb,
  ◌==◌,
}
use vortex_go.Outcome.{Result, ok, err, invalid, unsupported, refuse, ◌>>=◌, ◌>>◌}
use vortex_go.Schema.{VortexType, Kind, kind_of, is_nullable, is_kind, fields_of}
use vortex_go.Schema.Arrow.{ArrowTypes, ArrowField}
use vortex_go.Layout.{Layout, rows}
use vortex_go.Encoding.Word.{read_little}
use vortex_go.File.Tables.{Tables, SegmentSpec}
use vortex_go.File.Limits.{check_root, max_depth, max_nodes}
use vortex_go.File.Registry.{Registry, parse_footer}
use vortex_go.File.LayoutTree.{parse_layout}
use vortex_go.File.DType.{parse_type}
use vortex_go.File.Open.Schema.{build_schema}

-- `File`, without its source
pub record File (DataType : Type 0) : Type 0 where
  pub size : ℕ
  pub schema : List (ArrowField DataType)
  pub dtype : VortexType
  pub root : Layout
  pub registry : Registry

-- f.NumRows()
abbrev pub num_rows : {DataType : Type 0} → File DataType → ℕ
num_rows f = rows f.root

-- string(b) == "VTXF"
unfoldable pub is_magic : List ℕ → Bool
is_magic (a ∷ b ∷ c ∷ d ∷ []) = (a == 86) && (b == 84) && (c == 88) && (d == 70)
is_magic b = false

-- The trailer of 8 bytes: the length of the postscript.
unfoldable pub parse_eof : List ℕ → Result ℕ
unfolding is_magic read_little
parse_eof eof = do
  refuse (not (is_magic (drop 4 eof))) (invalid "footer magic")
  refuse (not (read_little eof 2 == 1)) (unsupported "file version")
  refuse (read_little (drop 2 eof) 2 == 0 || ltb 65527 (read_little (drop 2 eof) 2))
      (invalid "postscript length")
  ok (read_little (drop 2 eof) 2)

-- The tests of a segment that the postscript names, in a file whose postscript is at `start`.
unfoldable pub check_postscript_segment : (start : ℕ) → Option SegmentSpec → Result SegmentSpec
check_postscript_segment start none = err (invalid "required postscript segment missing")
check_postscript_segment start (some s) = do
  refuse s.has_transforms (unsupported "compressed/encrypted footer")
  refuse (ltb start s.offset || ltb (start - s.offset) s.length) (invalid "footer segment range")
  refuse (ltb 30 s.alignment) (invalid "footer segment alignment")
  ok s

module _ (tables : Tables) (arrow : ArrowTypes) where
  -- f.parseRegistry(b)
  unfoldable pub parse_registry : (size : ℕ) → List ℕ → Result Registry
  unfolding check_root parse_footer
  parse_registry size b = do check_root b; r ← tables.footer b; parse_footer size (length b) r

  unfoldable pub root_type : List ℕ → Result VortexType
  unfolding check_root parse_type
  root_type b = do
    check_root b
    v ← tables.type_root b
    (parse_type tables (max_depth + 1) v max_nodes).0

  unfoldable pub root_layout : Registry → List ℕ → Result Layout
  unfolding check_root parse_layout
  root_layout r b = do
    check_root b
    v ← tables.layout_root b
    (parse_layout tables r (max_depth + 1) v max_nodes).0

  -- Open, once the parts are read.
  unfoldable pub parse_file :
      (size : ℕ) → (dtype_bytes footer_bytes layout_bytes : List ℕ) → Result (File arrow.DataType)
  unfolding parse_registry root_type root_layout build_schema
  parse_file size dtype_bytes footer_bytes layout_bytes = do
    r ← parse_registry size footer_bytes
    t ← root_type dtype_bytes
    refuse (not (is_kind (kind_of t) Kind.struct) || is_nullable t)
        (unsupported "root must be a non-nullable struct")
    fields ← build_schema arrow (fields_of t)
    l ← root_layout r layout_bytes
    ok (record { size = size; schema = fields; dtype = t; root = l; registry = r })
