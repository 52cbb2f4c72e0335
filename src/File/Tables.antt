-- ===== src/File/Tables.antt =====
-- The FlatBuffers tables that the metadata stand in (internal/wire/fb, generated by flatc): a
-- parameter. A malformed table makes an accessor panic, which `recoverParse` turns into ErrInvalid;
-- an accessor here reads the fields of a table together.
use vortex_go.Base.{ℕ, String, Bool, Option, List}
use vortex_go.Base.Int.{ℤ}
use vortex_go.Outcome.{Result}

-- A text with the number of its bytes.
pub record Text : Type 0 where
  pub text : String
  pub size : ℕ

-- fb.SegmentSpec and fb.PostscriptSegment
pub record SegmentSpec : Type 0 where
  pub offset : ℕ
  pub length : ℕ
  pub alignment : ℕ
  pub has_transforms : Bool

-- fb.Postscript
pub record Postscript : Type 0 where
  pub dtype : Option SegmentSpec
  pub footer : Option SegmentSpec
  pub layout : Option SegmentSpec

-- fb.Footer
pub record Footer : Type 0 where
  pub arrays : ℕ
  pub array_id : ℕ → Result Text
  pub layouts : ℕ
  pub layout_id : ℕ → Result Text
  pub segments : ℕ
  pub segment : ℕ → Result SegmentSpec

-- fb.Layout; `bytes` is the length of the buffer that the table stands in
pub record LayoutView (Table : Type 0) : Type 0 where
  pub encoding : ℕ
  pub rows : ℕ
  pub bytes : ℕ
  pub metadata : List ℕ
  pub children : ℕ
  pub child : ℕ → Result Table
  pub segments : ℕ
  pub segment : ℕ → Result ℕ

-- fb.DType with its union; a type that is a pointer may be nil.
pub data TypeView (Table : Type 0) : Type 0 where
  missing null : TypeView Table
  bool utf8 binary : (nullable : Bool) → TypeView Table
  primitive : (ptype : ℕ) → (nullable : Bool) → TypeView Table
  decimal : (precision scale : ℤ) → (nullable : Bool) → TypeView Table
  struct :
      (names dtypes bytes : ℕ)
      → (dtype : ℕ → Result Table) → (name : ℕ → Result Text) → (nullable : Bool) → TypeView Table
  extension : (id : Text) → (metadata : List ℕ) → (storage : Option Table) → TypeView Table
  list : (element : Option Table) → (nullable : Bool) → TypeView Table
  fixed_size_list : (size : ℕ) → (element : Option Table) → (nullable : Bool) → TypeView Table
  unknown : TypeView Table

-- fb.Buffer
pub record BufferView : Type 0 where
  pub padding : ℕ
  pub length : ℕ
  pub alignment : ℕ
  pub is_compressed : Bool

-- fb.ArrayNode
pub record NodeView (Table : Type 0) : Type 0 where
  pub encoding : ℕ
  pub bytes : ℕ
  pub metadata : List ℕ
  pub children : ℕ
  pub child : ℕ → Result Table
  pub buffers : ℕ
  pub buffer : ℕ → Result ℕ

-- fb.Array
pub record ArrayView (Table : Type 0) : Type 0 where
  pub buffers : ℕ
  pub buffer : ℕ → Result BufferView
  pub root : Option Table

pub record Tables : Type 1 where
  pub LayoutTable : Type 0
  pub TypeTable : Type 0
  pub NodeTable : Type 0
  pub postscript : List ℕ → Result Postscript
  pub footer : List ℕ → Result Footer
  pub layout_root : List ℕ → Result LayoutTable
  pub layout_view : LayoutTable → Result (LayoutView LayoutTable)
  pub type_root : List ℕ → Result TypeTable
  pub type_view : TypeTable → Result (TypeView TypeTable)
  pub array : List ℕ → Result (ArrayView NodeTable)
  pub node_view : NodeTable → Result (NodeView NodeTable)
