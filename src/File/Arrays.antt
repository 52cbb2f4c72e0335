-- ===== src/File/Arrays.antt =====
-- `File.parseArray` and `parseNode` of array.go: the tree of encoded arrays with its buffers.
pub mod Buffers
pub mod Nodes
pub mod Flat
use vortex_go.Base.{
  ℕ, zero, suc, ◌+◌, String, Option, none, some, List, [], ◌∷◌, length, leb, if◌then◌else◌,
}
use vortex_go.Outcome.{Result, ok, err, invalid, refuse, Action, ◌>>=◌, ◌>>◌}
use vortex_go.Encoding.Values.{Node}
use vortex_go.File.Tables.{Tables, NodeView}
use vortex_go.File.Limits.{check_root, check_count, max_depth, max_nodes}
use vortex_go.File.Arrays.Buffers.{parse_buffers}
use vortex_go.File.Arrays.Nodes.{parse_node}

module _ (tables : Tables) where
  open tables use {NodeTable}

  parse_root : (arrays : List String) → Option NodeTable → List (List ℕ) → Result Node
  unfolding parse_node
  parse_root arrays none buffers = err (invalid "missing array node")
  parse_root arrays (some v) buffers =
      (parse_node tables arrays buffers (max_depth + 1) v max_nodes).0

  -- f.parseArray(tree, b)
  unfoldable pub parse_array : (arrays : List String) → (tree b : List ℕ) → Result Node
  unfolding check_root check_count parse_buffers parse_root
  parse_array arrays tree b = do
    check_root tree
    a ← tables.array tree
    check_count a.buffers (length tree) 8
    buffers ← parse_buffers a.buffers 0 0 b a.buffer
    parse_root arrays a.root buffers
