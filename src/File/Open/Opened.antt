-- ===== src/File/Open/Opened.antt =====
-- What `Open` has checked of a file that it returns.
use vortex_go.Base.{
  ℕ, ◌+◌, ◌≤◌, ◌<◌, ◌≡◌, refl, subst, Bool, true, false, not, ◌||◌, List, [], ◌++◌, length, All,
}
use vortex_go.Outcome.{ok, >>=-eq-ok, refuse-eq-ok, ok-injective}
use vortex_go.Schema.{Kind, kind_of, is_nullable, is_kind, fields_of}
use vortex_go.Schema.Arrow.{ArrowTypes}
use vortex_go.Layout.{Layout}
use vortex_go.File.Tables.{Tables}
use vortex_go.File.Limits.{check_root, max_depth, max_nodes}
use vortex_go.File.Registry.{Registry}
use vortex_go.File.Registry.Segments.{Within, parse_footer-Within}
use vortex_go.File.LayoutTree.{parse_layout}
use vortex_go.File.LayoutTree.Shape.{addresses, depth, all_segments, below, parse_layout-bounds}
use vortex_go.File.Open.Schema.{build_schema}
use vortex_go.File.Open.Schema.Distinct.{field_names, IsFresh, schema_names, build_schema-IsFresh}
use vortex_go.File.Open.Parts.{File, parse_registry, root_type, root_layout, parse_file}

-- A file that may be scanned: a root type that is a struct, not nullable, with distinct column
-- names, which the schema has too; segments that lie within the file; and a layout tree that is no
-- deeper than 65 levels, whose nodes are distinct and no more than maxNodes, and that names no
-- segment but those of the registry.
pub record IsOpened {DataType : Type 0} (size : ℕ) (f : File DataType) : Type 0 where
  pub sized : f.size ≡ size
  pub root_struct : is_kind (kind_of f.dtype) Kind.struct ≡ true
  pub root_nonnull : is_nullable f.dtype ≡ false
  pub names : schema_names f.schema ≡ field_names (fields_of f.dtype)
  pub fresh : IsFresh [] (field_names (fields_of f.dtype))
  pub within : All (Within size) f.registry.segments
  pub budget : (left : ℕ) × (addresses f.root ++ below left ≡ below max_nodes)
  pub shallow : depth f.root ≤ max_depth + 1
  pub known : All (λ s. s < length f.registry.segments) (all_segments f.root)

accepted : (a b : Bool) → (not a || b) ≡ false → (a ≡ true) × (b ≡ false)
accepted true false h = (refl, refl)
accepted true true h = cc
accepted false b h = cc

module _ (tables : Tables) (arrow : ArrowTypes) where
  parse_registry-Within :
      (size : ℕ) (b : List ℕ) (r : Registry)
      → parse_registry tables arrow size b ≡ ok r
      → All (Within size) r.segments
  unfolding parse_registry
  parse_registry-Within size b r h =
      let (u, p, h1) = >>=-eq-ok (check_root b) _ h in
      let (f, q, h2) = >>=-eq-ok (tables.footer b) _ h1 in
      (parse_footer-Within size (length b) f r h2).0

  root_layout-bounds :
      (r : Registry) (b : List ℕ) (l : Layout)
      → root_layout tables arrow r b ≡ ok l
      → ((left : ℕ) × (addresses l ++ below left ≡ below max_nodes))
        × (depth l ≤ max_depth + 1)
        × All (λ s. s < length r.segments) (all_segments l)
  unfolding root_layout
  root_layout-bounds r b l h =
      let (u, p, h1) = >>=-eq-ok (check_root b) _ h in
      let (v, q, h2) = >>=-eq-ok (tables.layout_root b) _ h1 in
      let (a, d, s) = parse_layout-bounds tables r (max_depth + 1) max_nodes v l h2 in
      (((parse_layout tables r (max_depth + 1) v max_nodes).1, a), d, s)

  pub parse_file-IsOpened :
      (size : ℕ) (dtype_bytes footer_bytes layout_bytes : List ℕ) (f : File arrow.DataType)
      → parse_file tables arrow size dtype_bytes footer_bytes layout_bytes ≡ ok f
      → IsOpened size f
  unfolding parse_file
  parse_file-IsOpened size dtype_bytes footer_bytes layout_bytes f h =
      let (r, p, h1) = >>=-eq-ok (parse_registry tables arrow size footer_bytes) _ h in
      let (t, q, h2) = >>=-eq-ok (root_type tables arrow dtype_bytes) _ h1 in
      let (plain, h3) =
        refuse-eq-ok (not (is_kind (kind_of t) Kind.struct) || is_nullable t) _ _ h2 in
      let (fields, o, h4) = >>=-eq-ok (build_schema arrow (fields_of t)) _ h3 in
      let (l, m, h5) = >>=-eq-ok (root_layout tables arrow r layout_bytes) _ h4 in
      let (names, fresh) = build_schema-IsFresh arrow (fields_of t) fields o in
      let (budget, shallow, known) = root_layout-bounds r layout_bytes l m in
      subst (IsOpened size) (ok-injective h5) (record {
        sized = refl;
        root_struct = (accepted _ _ plain).0;
        root_nonnull = (accepted _ _ plain).1;
        names = names;
        fresh = fresh;
        within = parse_registry-Within size footer_bytes r p;
        budget = budget;
        shallow = shallow;
        known = known;
      })
