-- ===== src/File/LayoutTree/Parsed.antt =====
-- The trees that `parseLayout` makes: their size, depth, segments and addresses.
use vortex_go.Base.{ℕ, zero, suc, ◌+◌, ◌^◌, ◌<◌, ◌≡◌, refl, sym, ap, subst, All, length, leb, arith}
use vortex_go.Outcome.{Result, Action, ok-injective}
use vortex_go.Outcome.Ensures.{
  Ensures, Ensures-pure, Ensures-raise, Ensures-bind, Ensures-bind-lift, Ensures-bind-refuse,
}
use vortex_go.Layout.{Layout, Layouts, layout, nil, cons}
use vortex_go.Encoding.Values.{index}
use vortex_go.File.Tables.{Tables, LayoutView}
use vortex_go.File.Limits.{check_count, node_budget}
use vortex_go.File.Registry.{Registry}
use vortex_go.File.LayoutTree.{parse_layout, parse_node, parse_children, layout_id, remaining}
use vortex_go.File.LayoutTree.Indices.{parse_indices, parse_indices_bounds}

-- The layout's node and those below it took the budget from `hi` down to `lo`, one each, in order,
-- and each has the budget that it left as its address; there are no more than `levels` levels; and
-- every segment is one of the `count` of the registry.
abbrev mutual
  pub IsParsed : (count levels lo hi : ℕ) → Layout → Type 0
  IsParsed count zero lo hi (layout i h cs) = ⊥
  IsParsed count (suc levels) lo hi (layout i h cs) =
      (suc h.address ≡ hi)
      × (h.rows < 2 ^ 63)
      × All (λ s. s < count) h.segments
      × AreParsed count levels lo h.address cs

  pub AreParsed : (count levels lo hi : ℕ) → Layouts → Type 0
  AreParsed count levels lo hi nil = lo ≡ hi
  AreParsed count levels lo hi (cons c cs) =
      (mid : ℕ) × IsParsed count levels mid hi c × AreParsed count levels lo mid cs

spent : (budget : ℕ) → Ensures node_budget budget (λ u left. suc left ≡ budget)
unfolding node_budget
spent zero = record { at = λ a e. cc }
spent (suc b) = record { at = λ a e. ground arith }

address-left : (hi : ℕ) → Ensures remaining hi (λ address left. (address ≡ hi) × (left ≡ address))
unfolding remaining
address-left hi = record { at = λ a e. let p : hi ≡ a = ok-injective e in (sym p, p) }

module _ (tables : Tables) (r : Registry) where
  open tables use {LayoutTable, layout_view}

  abbrev segment_count : ℕ
  segment_count = length r.segments

  abbrev Good : (levels : ℕ) → LayoutTable → ℕ → (parse : LayoutTable → Action ℕ Layout) → Type 0
  Good levels v hi parse = Ensures (parse v) hi (λ l lo. IsParsed segment_count levels lo hi l)

  children-AreParsed :
      (levels : ℕ) (parse : LayoutTable → Action ℕ Layout) (child : ℕ → Result LayoutTable)
      (n i hi : ℕ)
      → ((v : LayoutTable) (h : ℕ) → Good levels v h parse)
      → Ensures
          (parse_children tables r parse child n i)
          hi
          (λ ls lo. AreParsed segment_count levels lo hi ls)
  unfolding parse_children
  children-AreParsed levels parse child zero i hi good = Ensures-pure nil hi refl
  children-AreParsed levels parse child (suc n) i hi good = Ensures-bind-lift (child i) _ hi λ c e.
      Ensures-bind (parse c) _ hi (good c hi) λ l mid p.
        Ensures-bind (parse_children tables r parse child n (i + 1)) _ mid
          (children-AreParsed levels parse child n (i + 1) mid good)
          λ ls lo q. Ensures-pure (cons l ls) lo (mid, p, q)

  node-IsParsed :
      (levels : ℕ) (parse : LayoutTable → Action ℕ Layout) (v : LayoutView LayoutTable) (hi : ℕ)
      → ((u : LayoutTable) (h : ℕ) → Good levels u h parse)
      → Ensures
          (parse_node tables r parse v)
          hi
          (λ l lo. IsParsed segment_count (suc levels) lo (suc hi) l)
  unfolding parse_node
  node-IsParsed levels parse v hi good =
      Ensures-bind-refuse (leb (length r.layouts) v.encoding) _ _ hi λ e.
        Ensures-bind-refuse (leb (2 ^ 63) v.rows) _ _ hi λ small.
          Ensures-bind-lift (check_count v.children v.bytes 4) _ hi λ u1 e1.
            Ensures-bind-lift (check_count v.segments v.bytes 4) _ hi λ u2 e2.
              Ensures-bind-lift (index r.layouts v.encoding) _ hi λ id e3.
                Ensures-bind remaining _ hi (address-left hi) λ address left e4.
                  Ensures-bind (parse_children tables r parse v.child v.children 0) _ left
                    (children-AreParsed levels parse v.child v.children 0 left good)
                    λ cs lo q.
                      Ensures-bind-lift (parse_indices v.segments 0 segment_count v.segment) _ lo
                        λ ss e5.
                          Ensures-pure
                            (layout (layout_id id)
                              (record {
                                address = address;
                                rows = v.rows;
                                metadata = v.metadata;
                                segments = ss;
                              })
                              cs)
                            lo
                            (
                              ap suc e4.0,
                              ground arith,
                              parse_indices_bounds v.segments 0 segment_count v.segment ss e5,
                              subst (λ a. AreParsed segment_count levels lo a cs) e4.1 q,
                            )

  pub parse_layout-IsParsed :
      (levels : ℕ) (v : LayoutTable) (hi : ℕ) → Good levels v hi (parse_layout tables r levels)
  unfolding parse_layout
  parse_layout-IsParsed zero v hi = Ensures-raise _ hi
  parse_layout-IsParsed (suc levels) v hi = Ensures-bind node_budget _ hi (spent hi) λ u lo e.
      Ensures-bind-lift (layout_view v) _ lo λ view e1.
        subst
          (λ h.
            Ensures (parse_node tables r (parse_layout tables r levels) view) lo
              (λ l low. IsParsed segment_count (suc levels) low h l))
          e
          (node-IsParsed levels (parse_layout tables r levels) view lo
            (parse_layout-IsParsed levels))
