-- ===== src/File/Arrays/Nodes.antt =====
-- `File.parseNode` of array.go.
pub mod Shape
use vortex_go.Base.{ℕ, zero, suc, ◌+◌, String, List, [], ◌∷◌, length, leb, if◌then◌else◌}
use vortex_go.Outcome.{Result, invalid, refuse, Action}
use vortex_go.Outcome.Act.{pure, raise, lift, ◌>>=◌, ◌>>◌}
use vortex_go.Encoding.Values.{Encoding, Node, Nodes, node, nil, cons, index}
use vortex_go.File.Tables.{Tables, NodeView}
use vortex_go.File.Limits.{check_count, node_budget}
use text.Mathlib.Text.{◌==◌ as str_eq}

-- The identifiers that `decode` of internal/encoding/decode.go dispatches on.
named : List (String × Encoding) → String → Encoding
named [] s = Encoding.other
named ((k, e) ∷ es) s = let rest = named es s in if str_eq s k then e else rest

abbrev names : List (String × Encoding)
names =
    ("vortex.null", Encoding.null)
    ∷ ("vortex.primitive", Encoding.primitive)
    ∷ ("vortex.bool", Encoding.bool)
    ∷ ("vortex.bytebool", Encoding.bytebool)
    ∷ ("vortex.constant", Encoding.constant)
    ∷ ("vortex.struct", Encoding.struct)
    ∷ ("vortex.varbin", Encoding.varbin)
    ∷ ("vortex.varbinview", Encoding.varbinview)
    ∷ ("vortex.dict", Encoding.dict)
    ∷ ("vortex.masked", Encoding.masked)
    ∷ ("vortex.extension", Encoding.extension)
    ∷ ("vortex.ext", Encoding.extension)
    ∷ ("vortex.decimal", Encoding.decimal)
    ∷ ("vortex.decimal_byte_parts", Encoding.decimal_byte_parts)
    ∷ ("fastlanes.bitpacked", Encoding.bitpacked)
    ∷ ("fastlanes.for", Encoding.frame_of_reference)
    ∷ ("vortex.zigzag", Encoding.zigzag)
    ∷ ("vortex.sequence", Encoding.sequence)
    ∷ ("vortex.runend", Encoding.runend)
    ∷ ("fastlanes.rle", Encoding.rle)
    ∷ ("vortex.sparse", Encoding.sparse)
    ∷ ("vortex.alp", Encoding.alp)
    ∷ ("vortex.alprd", Encoding.alprd)
    ∷ ("vortex.fsst", Encoding.fsst)
    ∷ ("vortex.onpair", Encoding.onpair)
    ∷ ("vortex.zstd", Encoding.zstd)
    ∷ ("vortex.datetimeparts", Encoding.datetimeparts)
    ∷ ("fastlanes.delta", Encoding.delta)
    ∷ ("vortex.pco", Encoding.pco)
    ∷ []

pub encoding_of : String → Encoding
unfolding named
encoding_of s = named names s

-- The loop over the buffers of a node: `n` are left, from i on.
pick_buffers : (n i : ℕ) → (ℕ → Result ℕ) → List (List ℕ) → Action ℕ (List (List ℕ))
pick_buffers zero i buffer buffers = pure []
pick_buffers (suc n) i buffer buffers = do
  k ← lift (buffer i)
  lift (refuse (leb (length buffers) k) (invalid "unknown array buffer"))
  b ← lift (index buffers k)
  rest ← pick_buffers n (i + 1) buffer buffers
  pure (b ∷ rest)

module _ (tables : Tables) (arrays : List String) (buffers : List (List ℕ)) where
  open tables use {NodeTable, node_view}

  -- The loop over the children: `n` are left, from i on.
  parse_children :
      (parse : NodeTable → Action ℕ Node)
      → (child : ℕ → Result NodeTable) → (n i : ℕ) → Action ℕ Nodes
  parse_children parse child zero i = pure nil
  parse_children parse child (suc n) i = do
    v ← lift (child i)
    c ← parse v
    rest ← parse_children parse child n (i + 1)
    pure (cons c rest)

  parse_body : (parse : NodeTable → Action ℕ Node) → NodeView NodeTable → Action ℕ Node
  unfolding encoding_of pick_buffers parse_children check_count
  parse_body parse v = do
    lift (refuse (leb (length arrays) v.encoding) (invalid "unknown encoding index"))
    lift (check_count v.children v.bytes 4)
    lift (check_count v.buffers v.bytes 2)
    e ← lift (index arrays v.encoding)
    bs ← pick_buffers v.buffers 0 v.buffer buffers
    cs ← parse_children parse v.child v.children 0
    pure (node (encoding_of e) v.metadata bs cs)

  -- f.parseNode(v, buffers, depth, budget) of a v that is not nil, where `levels` more levels may
  -- open: 65 - depth
  unfoldable pub parse_node : (levels : ℕ) → NodeTable → Action ℕ Node
  unfolding parse_body node_budget
  parse_node zero v = raise (invalid "metadata nesting or node count")
  parse_node (suc levels) v = do
    node_budget
    view ← lift (node_view v)
    parse_body (parse_node levels) view
