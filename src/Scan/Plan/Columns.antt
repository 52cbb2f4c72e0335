-- ===== src/Scan/Plan/Columns.antt =====
-- The plan of a column of the root struct (`buildFieldPlan`) against the rows of the file.
use vortex_go.Base.{
  ℕ, zero, suc, ◌+◌, ◌-◌, ◌≤◌, ◌≡◌, refl, subst, not, Bool, true, false, Option, none, some, arith,
  ltb,
}
use vortex_go.Outcome.{ok, refuse-eq-ok, ok-injective, >>=-eq-ok}
use vortex_go.Schema.{VortexType, fields_of, field_type}
use vortex_go.Layout.{Layout, Layouts, layout, nil, cons, rows, child}
use vortex_go.Layout.LayoutId.{struct, chunked, flat, zoned, stats, dict, other}
use vortex_go.Wire.{ProtoWire}
use vortex_go.Scan.Plan.{
  ColumnPlan, empty_plan, same_rows, struct_mismatch, build_field, build_field_plan,
  build_field_chunks,
}
use vortex_go.Scan.Plan.Tiling.{
  Covers, Covers-add_piece, Covers-finish_chunks, scalar-Covers, chunk_fits,
}

same_rows-child :
    (n : ℕ) (cs : Layouts) (i : ℕ) (c : Layout)
    → same_rows n cs ≡ true
    → child cs i ≡ some c
    → rows c ≡ n
unfolding same_rows
same_rows-child n nil i c h e = cc
same_rows-child n (cons x cs) zero c h e = ground arith
same_rows-child n (cons x cs) (suc i) c h e = ground (arith, same_rows-child n cs i c)

not-eq-false : (b : Bool) → not b ≡ false → b ≡ true
not-eq-false true h = refl
not-eq-false false h = cc

module _ {A : Type 0} (w : ProtoWire) where
  build_field-Covers :
      (child : Option Layout) (t : Option VortexType) (start n a c : ℕ) (out out' : ColumnPlan A)
      → build_field w child t start out ≡ ok out'
      → ((x : Layout) → child ≡ some x → rows x ≡ n)
      → start + n ≤ c
      → Covers a start c out
      → Covers a (start + n) c out'
  unfolding build_field
  build_field-Covers none t start n a c out out' e h le k = cc
  build_field-Covers (some x) none start n a c out out' e h le k = cc
  build_field-Covers (some x) (some t) start n a c out out' e h le k =
      subst (λ r. Covers a (start + r) c out') (h x refl)
        (scalar-Covers w x t start a c out out' e (omega (arith, h x refl)) k)

  mutual
    unfolding build_field_plan build_field_chunks

    field-Covers :
        (l : Layout) (t : VortexType) (f start a c : ℕ) (out out' : ColumnPlan A)
        → build_field_plan w l t f start out ≡ ok out'
        → start + rows l ≤ c
        → Covers a start c out
        → Covers a (start + rows l) c out'
    field-Covers (layout struct h cs) t f start a c out out' e le k =
        let (p, q) = refuse-eq-ok (struct_mismatch t cs) _ _ e in
        let (r, s) = refuse-eq-ok (not (same_rows h.rows cs)) _ _ q in
        let same : same_rows h.rows cs ≡ true = not-eq-false (same_rows h.rows cs) r in
        build_field-Covers (child cs f) (field_type (fields_of t) f) start h.rows a c out out' s
          (λ x. same_rows-child h.rows cs f x same) le k
    field-Covers (layout chunked h cs) t f start a c out out' e le k =
        field_chunks-Covers cs t f start h.rows start a c out out' e (omega arith) (omega arith) le
          k
    field-Covers (layout flat h cs) t f start a c out out' e le k =
        subst (Covers a (start + h.rows) c) (ok-injective e)
          (Covers-add_piece (layout flat h cs) t (some f) a start c out k)
    field-Covers (layout zoned h cs) t f start a c out out' e le k = cc
    field-Covers (layout stats h cs) t f start a c out out' e le k = cc
    field-Covers (layout dict h cs) t f start a c out out' e le k = cc
    field-Covers (layout (other id) h cs) t f start a c out out' e le k = cc

    field_chunks-Covers :
        (cs : Layouts) (t : VortexType) (f start total offset a c : ℕ) (out out' : ColumnPlan A)
        → build_field_chunks w cs t f start total offset out ≡ ok out'
        → start ≤ offset
        → offset ≤ start + total
        → start + total ≤ c
        → Covers a offset c out
        → Covers a (start + total) c out'
    field_chunks-Covers nil t f start total offset a c out out' e le le' lc k =
        Covers-finish_chunks a start total offset c out e le k
    field_chunks-Covers (cons x cs) t f start total offset a c out out' e le le' lc k =
        let (p, q) = refuse-eq-ok (ltb (total - (offset - start)) (rows x)) _ _ e in
        let (mid, r, s) = >>=-eq-ok (build_field_plan w x t f offset out) _ q in
        let fits : offset + rows x ≤ start + total =
          chunk_fits (rows x) start total offset p le le' in
        field_chunks-Covers cs t f start total (offset + rows x) a c mid out' s (omega arith) fits
          lc (field-Covers x t f offset a c out mid r (omega arith) k)

  -- If `build_field_plan` succeeds on an empty plan from row 0, the pieces tile the rows of the root
  -- layout, in order, with no gap and no overlap, and every zone lies within those rows.
  pub build_field_plan-Covers :
      (root : Layout) (t : VortexType) (f : ℕ) (out : ColumnPlan A)
      → build_field_plan w root t f 0 empty_plan ≡ ok out
      → Covers 0 (rows root) (rows root) out
  build_field_plan-Covers root t f out e =
      subst (λ b. Covers 0 b (rows root) out) (omega arith)
        (field-Covers root t f 0 0 (rows root) empty_plan out e (omega arith)
          (record { tiles = refl; zones_within = tt }))
