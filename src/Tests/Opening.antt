-- ===== src/Tests/Opening.antt =====
-- Opening files at small inputs: a source of bytes, a footer and a tree of layouts.
use vortex_go.Base.{
  ℕ, zero, suc, ◌+◌, ◌-◌, ◌≡◌, ◌≤◌, ◌<◌, refl, String, false, Option, none, some, List, [], ◌∷◌,
  ◌++◌, All, arith, length, get_or, min, ltb, if◌then◌else◌, true, ap, Bool-cases, inl, inr,
}
use vortex_go.Base.Int.{pos}
use vortex_go.Outcome.{Error, Result, ok, err, failed}
use vortex_go.Schema.{VortexType, Kind, simple, no_fields, field}
use vortex_go.File.DType.{struct_type}
use vortex_go.Schema.Arrow.{ArrowTypes}
use vortex_go.Layout.{Layout, layout, nil, cons, LayoutId}
use vortex_go.Encoding.Values.{Encoding, Node, Nodes, node}
use vortex_go.File.Tables.{
  Tables, NodeView, LayoutView, TypeView, Text, SegmentSpec, Footer, BufferView,
}
use vortex_go.File.Read.{ReadAnswer, bytes_from, read}
use vortex_go.File.Read.Exact.{IsSource, read-Exact}
use vortex_go.File.Read.Returns.{NeverFails, read-bytes_from}
use vortex_go.File.Limits.{max_nodes}
use vortex_go.File.Registry.{Registry, parse_footer}
use vortex_go.File.Registry.Segments.{Within, parse_footer-Within}
use vortex_go.File.LayoutTree.{parse_layout}
use vortex_go.File.LayoutTree.Shape.{addresses, below, depth, all_segments, parse_layout-bounds}
use vortex_go.File.Arrays.Buffers.{parse_buffers, AreRanges, parse_buffers-AreRanges}
use vortex_go.File.Arrays.Nodes.{parse_node}
use vortex_go.File.Arrays.Nodes.Shape.{
  IsOneOf, node_count, node_depth, node_buffers, parse_node-IsOneOf,
}
use vortex_go.File.Arrays.Flat.{split_trailer}
use vortex_go.File.Arrays.Flat.Trailer.{segment_of, split_trailer-segment_of}
use vortex_go.File.Open.{open_file}
use vortex_go.File.Open.Parts.{File}
use vortex_go.File.Open.Opened.{IsOpened}
use vortex_go.File.Open.Source.{IsVortex, open_file-IsOpened}

-- The bytes of a file of 52 bytes: the magic, FlatBuffers for the type, the footer and the layout, a
-- postscript, and the trailer.
abbrev magic : List ℕ
magic = 86 ∷ 84 ∷ 88 ∷ 70 ∷ []

abbrev root : List ℕ
root = 0 ∷ 0 ∷ 0 ∷ 0 ∷ 0 ∷ 0 ∷ 0 ∷ 0 ∷ []

abbrev file_bytes : List ℕ
file_bytes = magic ++ root ++ root ++ root ++ root ++ root ++ (1 ∷ 0 ∷ 8 ∷ 0 ∷ magic)

abbrev byte : ℕ → ℕ
byte i = get_or file_bytes i 0

abbrev no_context : Unit {0} → Option Error × Unit {0}
no_context w = (none, w)

-- A source of these bytes: it reads up to their end, where it says io.EOF.
abbrev read_at : (offset want : ℕ) → Unit {0} → ReadAnswer × Unit {0}
read_at offset want w = (
  record {
    count = pos (min want (52 - offset));
    content = λ i. byte (offset + i);
    failure = if ltb (offset + want) 52 then none else some (true, failed "EOF");
  },
  w,
)

source-IsSource : IsSource no_context read_at byte
source-IsSource offset want w i counted lt = refl

source-NeverFails : NeverFails no_context read_at 52
source-NeverFails = record {
  running = λ w. refl;
  counts = λ offset want w inside. ap pos (omega arith);
  silent = λ offset want w inside. elim (Bool-cases (ltb (offset + want) 52)) [
    | inl t ↦ inl (rw t refl)
    | inr t ↦ inr (failed "EOF", rw t refl)
  ];
}

-- Bytes 4 to 12 are the type's.
type_bytes : (read no_context read_at 52 (pos 4) 8 8 tt).0 ≡ ok root
unfolding read
type_bytes = refl

read-Exact_example :
    (start : ℕ) × (pos 4 ≡ pos start)
    × (start + 8 ≤ 52)
    × (8 ≤ 8)
    × (root ≡ bytes_from byte start 8)
read-Exact_example =
    read-Exact no_context read_at byte 52 (pos 4) 8 8 tt root source-IsSource type_bytes

-- The last eight bytes, behind which the source ends.
read-bytes_from_example : (read no_context read_at 52 (pos 44) 8 8 tt).0 ≡ ok (bytes_from byte 44 8)
read-bytes_from_example =
    read-bytes_from no_context read_at 52 source-NeverFails byte 44 8 8 tt source-IsSource
      (omega arith) (omega arith)

-- A flat layout with segment 0, and a struct layout above it.
abbrev flat_view : LayoutView ℕ
flat_view = record {
  encoding = 1;
  rows = 2;
  bytes = 8;
  metadata = [];
  children = 0;
  child = λ i. err (failed "no child");
  segments = 1;
  segment = λ i. ok 0;
}

abbrev struct_view : LayoutView ℕ
struct_view = record {
  encoding = 0;
  rows = 2;
  bytes = 8;
  metadata = [];
  children = 1;
  child = λ i. ok 0;
  segments = 0;
  segment = λ i. err (failed "no segment");
}

abbrev layout_view : ℕ → Result (LayoutView ℕ)
layout_view zero = ok flat_view
layout_view (suc n) = ok struct_view

abbrev name : String → ℕ → Text
name s n = record { text = s; size = n }

-- An integer, and a struct of one integer.
abbrev type_view : ℕ → Result (TypeView ℕ)
type_view zero = ok (TypeView.primitive 7 false)
type_view (suc n) = ok (TypeView.struct 1 1 8 (λ i. ok 0) (λ i. ok (name "a" 1)) false)

-- A node with the second buffer, and a node above it with the first one.
abbrev leaf_view : NodeView ℕ
leaf_view = record {
  encoding = 0;
  bytes = 8;
  metadata = [];
  children = 0;
  child = λ i. err (failed "no child");
  buffers = 1;
  buffer = λ i. ok 1;
}

abbrev top_view : NodeView ℕ
top_view = record {
  encoding = 0;
  bytes = 8;
  metadata = [];
  children = 1;
  child = λ i. ok 0;
  buffers = 1;
  buffer = λ i. ok 0;
}

abbrev node_view : ℕ → Result (NodeView ℕ)
node_view zero = ok leaf_view
node_view (suc n) = ok top_view

abbrev at_range : ℕ → ℕ → SegmentSpec
at_range a n = record { offset = a; length = n; alignment = 0; has_transforms = false }

abbrev footer : Footer
footer = record {
  arrays = 1;
  array_id = λ i. ok (name "vortex.primitive" 16);
  layouts = 2;
  layout_id = λ i. ok (elim i [ zero ↦ name "vortex.struct" 13 | suc j ↦ name "vortex.flat" 11 ]);
  segments = 1;
  segment = λ i. ok (at_range 4 8);
}

abbrev tables : Tables
tables = record {
  LayoutTable = ℕ;
  TypeTable = ℕ;
  NodeTable = ℕ;
  postscript = λ b. ok (record {
    dtype = some (at_range 4 8);
    footer = some (at_range 12 16);
    layout = some (at_range 28 8);
  });
  footer = λ b. ok footer;
  layout_root = λ b. ok 1;
  layout_view = layout_view;
  type_root = λ b. ok 1;
  type_view = type_view;
  array = λ b. err (failed "no array");
  node_view = node_view;
}

abbrev pub arrow : ArrowTypes
arrow = record {
  DataType = Kind;
  plain = λ k. k;
  decimal128 = λ p s. Kind.decimal;
  decimal256 = λ p s. Kind.decimal;
  struct_of = λ fs. ok Kind.struct;
  list_of = λ f. ok Kind.list;
  fixed_size_list_of = λ n f. ok Kind.fixed_size_list;
  date32 = Kind.i32;
  date64 = Kind.i64;
  time32 = λ u. Kind.i32;
  time64 = λ u. Kind.i64;
  timestamp = λ u z. Kind.i64;
}

abbrev registry : Registry
registry = record {
  arrays = "vortex.primitive" ∷ [];
  layouts = "vortex.struct" ∷ ("vortex.flat" ∷ []);
  segments = record { offset = 4; length = 8 } ∷ [];
}

-- The node at the top is made first, and so has the greater address.
abbrev tree : (budget : ℕ) → Layout
tree budget =
    layout LayoutId.struct (record { address = budget - 1; rows = 2; metadata = []; segments = [] })
      (cons
        (layout LayoutId.flat
          (record { address = budget - 2; rows = 2; metadata = []; segments = 0 ∷ [] }) nil)
        nil)

parse_footer_run : parse_footer 52 16 footer ≡ ok registry
unfolding parse_footer
parse_footer_run = refl

parse_footer-Within_example :
    All (Within 52) registry.segments × (length registry.segments ≡ 1) × (1 ≤ max_nodes)
parse_footer-Within_example = parse_footer-Within 52 16 footer registry parse_footer_run

parse_layout_run : (parse_layout tables registry 3 1 9).0 ≡ ok (tree 9)
unfolding parse_layout
parse_layout_run = refl

parse_layout-bounds_example :
    (addresses (tree 9) ++ below (parse_layout tables registry 3 1 9).1 ≡ below 9)
    × (depth (tree 9) ≤ 3)
    × All (λ s. s < 1) (all_segments (tree 9))
parse_layout-bounds_example = parse_layout-bounds tables registry 3 9 1 (tree 9) parse_layout_run

abbrev int_column : VortexType
int_column = simple Kind.i64 false

abbrev file : File Kind
file = record {
  size = 52;
  schema = record { name = "a"; dtype = Kind.i64; nullable = false } ∷ [];
  dtype = struct_type (field "a" int_column no_fields) false;
  root = tree max_nodes;
  registry = registry;
}

open_run : (open_file tables arrow no_context read_at 52 tt).0 ≡ ok file
unfolding open_file
open_run = refl

open_file-IsOpened_example : IsVortex 52 byte × IsOpened 52 file
open_file-IsOpened_example =
    open_file-IsOpened tables arrow no_context read_at byte 52 tt file source-IsSource open_run

-- Two buffers of a segment of six bytes, the second one behind a byte of padding.
abbrev buffer : ℕ → Result BufferView
buffer i = elim i [
  | zero ↦ ok (record { padding = 0; length = 2; alignment = 0; is_compressed = false })
  | suc j ↦ ok (record { padding = 1; length = 3; alignment = 0; is_compressed = false })
]

abbrev segment_bytes : List ℕ
segment_bytes = 1 ∷ 2 ∷ 3 ∷ 4 ∷ 5 ∷ 6 ∷ []

abbrev two_buffers : List (List ℕ)
two_buffers = (1 ∷ 2 ∷ []) ∷ (4 ∷ 5 ∷ 6 ∷ []) ∷ []

parse_buffers_run : parse_buffers 2 0 0 segment_bytes buffer ≡ ok two_buffers
unfolding parse_buffers
parse_buffers_run = refl

parse_buffers-AreRanges_example : (length two_buffers ≡ 2) × AreRanges segment_bytes 0 two_buffers
parse_buffers-AreRanges_example =
    parse_buffers-AreRanges 2 0 0 segment_bytes buffer two_buffers (omega arith) parse_buffers_run

abbrev two_nodes : Node
two_nodes =
    node Encoding.primitive [] ((1 ∷ 2 ∷ []) ∷ [])
      (Nodes.cons (node Encoding.primitive [] ((4 ∷ 5 ∷ 6 ∷ []) ∷ []) Nodes.nil) Nodes.nil)

parse_node_run : (parse_node tables ("vortex.primitive" ∷ []) two_buffers 3 1 9).0 ≡ ok two_nodes
unfolding parse_node
parse_node_run = refl

parse_node-IsOneOf_example :
    (node_count two_nodes + (parse_node tables ("vortex.primitive" ∷ []) two_buffers 3 1 9).1 ≡ 9)
    × (node_depth two_nodes ≤ 3)
    × All (IsOneOf two_buffers) (node_buffers two_nodes)
parse_node-IsOneOf_example =
    parse_node-IsOneOf tables ("vortex.primitive" ∷ []) two_buffers 3 9 1 two_nodes parse_node_run

split_trailer-segment_of_example :
    split_trailer (segment_of (1 ∷ 2 ∷ []) (7 ∷ 8 ∷ 9 ∷ [])) ≡ ok (7 ∷ 8 ∷ 9 ∷ [], 1 ∷ 2 ∷ [])
split_trailer-segment_of_example =
    split_trailer-segment_of (1 ∷ 2 ∷ []) (7 ∷ 8 ∷ 9 ∷ []) (omega arith)
