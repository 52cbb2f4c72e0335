-- ===== src/File/LayoutTree.antt =====
-- `File.parseLayout` of file.go. The address of a node, which stands for its pointer, is the budget
-- that was left when it was made, so no two nodes have the same.
pub mod Indices
pub mod Parsed
pub mod Shape
use vortex_go.Base.{
  ℕ, zero, suc, ◌+◌, ◌^◌, String, Bool, true, false, List, [], ◌∷◌, length, leb, if◌then◌else◌,
}
use vortex_go.Outcome.{Result, ok, err, invalid, refuse, Action}
use vortex_go.Outcome.Act.{pure, raise, lift, ◌>>=◌, ◌>>◌}
use vortex_go.Layout.{Layout, Layouts, layout, nil, cons, LayoutId}
use vortex_go.Encoding.Values.{index}
use vortex_go.File.Tables.{Tables, LayoutView}
use vortex_go.File.Limits.{check_count, node_budget, max_depth, max_nodes}
use vortex_go.File.Registry.{Registry}
use Indices.{parse_indices}
use text.Mathlib.Text.{◌==◌ as str_eq}

-- The identifiers that the code compares with.
unfoldable pub layout_id : String → LayoutId
layout_id s =
    if str_eq s "vortex.struct"
    then LayoutId.struct
    else if str_eq s "vortex.chunked"
    then LayoutId.chunked
    else if str_eq s "vortex.flat"
    then LayoutId.flat
    else if str_eq s "vortex.zoned"
    then LayoutId.zoned
    else if str_eq s "vortex.stats"
    then LayoutId.stats
    else if str_eq s "vortex.dict"
    then LayoutId.dict
    else LayoutId.other s

-- What is left of the budget.
remaining : Action ℕ ℕ
remaining budget = (ok budget, budget)

module _ (tables : Tables) (r : Registry) where
  open tables use {LayoutTable, layout_view}

  -- The loop over the children: `n` are left, from i on.
  pub parse_children :
      (parse : LayoutTable → Action ℕ Layout)
      → (child : ℕ → Result LayoutTable) → (n i : ℕ) → Action ℕ Layouts
  parse_children parse child zero i = pure nil
  parse_children parse child (suc n) i = do
    c ← lift (child i)
    l ← parse c
    ls ← parse_children parse child n (i + 1)
    pure (cons l ls)

  -- The body of parseLayout, behind its budget check.
  pub parse_node :
      (parse : LayoutTable → Action ℕ Layout) → LayoutView LayoutTable → Action ℕ Layout
  unfolding parse_indices parse_children layout_id remaining check_count
  parse_node parse v = do
    lift (refuse (leb (length r.layouts) v.encoding) (invalid "layout encoding or rows"))
    lift (refuse (leb (2 ^ 63) v.rows) (invalid "layout encoding or rows"))
    lift (check_count v.children v.bytes 4)
    lift (check_count v.segments v.bytes 4)
    id ← lift (index r.layouts v.encoding)
    address ← remaining
    cs ← parse_children parse v.child v.children 0
    ss ← lift (parse_indices v.segments 0 (length r.segments) v.segment)
    pure (
        layout (layout_id id)
          (record { address = address; rows = v.rows; metadata = v.metadata; segments = ss }) cs)

  -- f.parseLayout(v, depth, budget), where `levels` more levels may open: 65 - depth
  unfoldable pub parse_layout : (levels : ℕ) → LayoutTable → Action ℕ Layout
  unfolding parse_node node_budget
  parse_layout zero v = raise (invalid "metadata nesting or node count")
  parse_layout (suc levels) v = do
    node_budget
    view ← lift (layout_view v)
    parse_node (parse_layout levels) view
