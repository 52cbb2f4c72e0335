-- ===== src/Scan/Plan/Tiling.antt =====
-- The pieces and the zones of a plan against the rows of the layout that it was built from.
use vortex_go.Base.{
  ℕ, ◌+◌, ◌-◌, ◌≤◌, ◌≡◌, refl, subst, not, false, Bool-cases, Option-cases, inl, inr, Option, none,
  List, [], ◌∷◌, ◌++◌, All, All-append, arith, ltb, ◌==◌,
}
use vortex_go.Outcome.{ok, refuse-eq-ok, ok-injective, >>=-eq-ok}
use vortex_go.Schema.{VortexType}
use vortex_go.Layout.{Layout, Layouts, layout, nil, cons, rows}
use vortex_go.Layout.LayoutId.{struct, chunked, flat, zoned, stats, dict, other}
use vortex_go.Wire.{ProtoWire}
use vortex_go.Zone.{ZoneRef, new_zone_ref, new_zone_ref_rows}
use vortex_go.Scan.Plan.{
  Piece, ColumnPlan, empty_plan, whole, with_dictionary, add_piece, add_zone, add_codes,
  finish_chunks, dictionary_code_type, build_scalar_plan, build_scalar_chunks,
}

-- The pieces cover the rows from `a` up to `b`, in order, with no gap and no overlap.
abbrev pub Tiles : ℕ → ℕ → List Piece → Type 0
Tiles a b [] = a ≡ b
Tiles a b (p ∷ ps) = (p.start ≡ a) × (p.start ≤ p.end) × Tiles p.end b ps

-- Every zone reference stands for rows from `a` up to `b`.
abbrev pub ZonesWithin : {A : Type 0} → ℕ → ℕ → List (ZoneRef A) → Type 0
ZonesWithin a b = All (λ z. (a ≤ z.start) × (z.start ≤ z.end) × (z.end ≤ b))

-- What a plan that has reached row `b` of the rows from `a` satisfies, within a limit `c`.
pub record Covers {A : Type 0} (a b c : ℕ) (out : ColumnPlan A) : Type 0 where
  pub tiles : Tiles a b out.pieces
  pub zones_within : ZonesWithin a c out.zones

Tiles-append : (a b c : ℕ) (ps qs : List Piece) → Tiles a b ps → Tiles b c qs → Tiles a c (ps ++ qs)
Tiles-append a b c [] qs h k = rw h k
Tiles-append a b c (p ∷ ps) qs (s, le, h) k = (s, le, Tiles-append p.end b c ps qs h k)

Tiles-with_dictionary :
    (d : Layout) (t : VortexType) (a b : ℕ) (ps qs : List Piece)
    → with_dictionary d t ps ≡ ok qs
    → Tiles a b ps
    → Tiles a b qs
unfolding with_dictionary
Tiles-with_dictionary d t a b [] [] e h = h
Tiles-with_dictionary d t a b [] (q ∷ qs) e h = cc
Tiles-with_dictionary d t a b (p ∷ ps) qs e (s, le, h) = elim (Option-cases p.dictionary) [
  | inr (x, q) ↦ cc (rw q at e)
  | inl q ↦
      (let (rest, r, k) = >>=-eq-ok (with_dictionary d t ps) _ (rw q at e) in
        subst (Tiles a b) (ok-injective k) (s, le, Tiles-with_dictionary d t p.end b ps rest r h))
]

Tiles-le : (a b : ℕ) (ps : List Piece) → Tiles a b ps → a ≤ b
Tiles-le a b [] h = omega arith
Tiles-le a b (p ∷ ps) (s, le, h) = omega (arith, Tiles-le p.end b ps h)

module _ {A : Type 0} where
  pub Covers-add_piece :
      (l : Layout) (t : VortexType) (f : Option ℕ) (a b c : ℕ) (out : ColumnPlan A)
      → Covers a b c out
      → Covers a (b + rows l) c (add_piece (whole l t b f) out)
  unfolding add_piece whole
  Covers-add_piece l t f a b c out h = record {
    tiles = Tiles-append a b (b + rows l) out.pieces _ h.tiles (refl, omega arith, refl);
    zones_within = h.zones_within;
  }

  Covers-add_zone :
      (w : ProtoWire) (l n : Layout) (t : VortexType) (a b c : ℕ) (out : ColumnPlan A)
      → b + rows l ≤ c
      → Covers a b c out
      → Covers a b c (add_zone (new_zone_ref w l n t b) out)
  unfolding add_zone
  Covers-add_zone w l n t a b c out h k = record {
    tiles = k.tiles;
    zones_within =
        All-append _ out.zones _ k.zones_within
          (omega (arith, new_zone_ref_rows A w l n t b, Tiles-le a b out.pieces k.tiles), tt);
  }

  Covers-add_codes :
      (d : Layout) (t : VortexType) (a b e c c' : ℕ) (out codes : ColumnPlan A)
      {out' : ColumnPlan A}
      → add_codes d t out codes ≡ ok out'
      → Covers a b c out
      → Covers b e c' codes
      → Covers a e c out'
  unfolding add_codes
  Covers-add_codes d t a b e c c' out codes h k m =
      let (ps, r, s) = >>=-eq-ok (with_dictionary d t codes.pieces) _ h in
      subst (Covers a e c) (ok-injective s) (record {
        tiles =
            Tiles-append a b e out.pieces ps k.tiles
              (Tiles-with_dictionary d t b e codes.pieces ps r m.tiles);
        zones_within = k.zones_within;
      })

  pub Covers-finish_chunks :
      (a start total offset c : ℕ) (out : ColumnPlan A) {out' : ColumnPlan A}
      → finish_chunks total (offset - start) out ≡ ok out'
      → start ≤ offset
      → Covers a offset c out
      → Covers a (start + total) c out'
  unfolding finish_chunks
  Covers-finish_chunks a start total offset c out h le k =
      elim (Bool-cases (offset - start == total)) [
        | inl e ↦
            (let reached : offset ≡ start + total = ground arith in
              subst (λ o. Covers a (start + total) c o) (ok-injective (rw e at h))
                (subst (λ b. Covers a b c out) reached k))
        | inr e ↦ cc (rw e at h)
      ]

-- A child that the loop accepts fits into what is left of its parent.
pub chunk_fits :
    (r start total offset : ℕ)
    → ltb (total - (offset - start)) r ≡ false
    → start ≤ offset
    → offset ≤ start + total
    → offset + r ≤ start + total
chunk_fits r start total offset h le le' = ground arith

pub same_count : (m n : ℕ) → not (m == n) ≡ false → m ≡ n
same_count m n h = ground arith

module _ {A : Type 0} (w : ProtoWire) where
  mutual
    unfolding build_scalar_plan build_scalar_chunks

    pub scalar-Covers :
        (l : Layout) (t : VortexType) (start a c : ℕ) (out out' : ColumnPlan A)
        → build_scalar_plan w l t start out ≡ ok out'
        → start + rows l ≤ c
        → Covers a start c out
        → Covers a (start + rows l) c out'
    scalar-Covers (layout flat h cs) t start a c out out' e le k =
        subst (Covers a (start + h.rows) c) (ok-injective e)
          (Covers-add_piece (layout flat h cs) t none a start c out k)
    scalar-Covers (layout chunked h cs) t start a c out out' e le k =
        chunks-Covers cs t start h.rows start a c out out' e (omega arith) (omega arith) le k
    scalar-Covers (layout zoned h (cons x (cons s nil))) t start a c out out' e le k =
        let l = layout zoned h (cons x (cons s nil)) in
        let (p, q) = refuse-eq-ok (not (rows x == h.rows)) _ _ e in
        let n : rows x ≡ h.rows = same_count _ _ p in
        let out1 = add_zone (new_zone_ref w l s t start) out in
        subst (λ r. Covers a (start + r) c out') n
          (scalar-Covers x t start a c out1 out' q (omega arith)
            (Covers-add_zone w l s t a start c out le k))
    scalar-Covers (layout stats h (cons x (cons s nil))) t start a c out out' e le k =
        let l = layout stats h (cons x (cons s nil)) in
        let (p, q) = refuse-eq-ok (not (rows x == h.rows)) _ _ e in
        let n : rows x ≡ h.rows = same_count _ _ p in
        let out1 = add_zone (new_zone_ref w l s t start) out in
        subst (λ r. Covers a (start + r) c out') n
          (scalar-Covers x t start a c out1 out' q (omega arith)
            (Covers-add_zone w l s t a start c out le k))
    scalar-Covers (layout dict h (cons d (cons x nil))) t start a c out out' e le k =
        let (p, q) = refuse-eq-ok (not (rows x == h.rows)) _ _ e in
        let n : rows x ≡ h.rows = same_count _ _ p in
        let (typ, r, s) = >>=-eq-ok (dictionary_code_type w h t) _ q in
        let (codes, u, v) = >>=-eq-ok (build_scalar_plan w x typ start empty_plan) _ s in
        let inner : Covers start (start + rows x) c codes =
          scalar-Covers x typ start start c empty_plan codes u (omega arith)
            (record { tiles = refl; zones_within = tt }) in
        subst (λ r. Covers a (start + r) c out') n
          (Covers-add_codes d t a start (start + rows x) c c out codes v k inner)
    scalar-Covers (layout zoned h _) t start a c out out' e le k = cc
    scalar-Covers (layout stats h _) t start a c out out' e le k = cc
    scalar-Covers (layout dict h _) t start a c out out' e le k = cc
    scalar-Covers (layout struct h cs) t start a c out out' e le k = cc
    scalar-Covers (layout (other id) h cs) t start a c out out' e le k = cc

    chunks-Covers :
        (cs : Layouts) (t : VortexType) (start total offset a c : ℕ) (out out' : ColumnPlan A)
        → build_scalar_chunks w cs t start total offset out ≡ ok out'
        → start ≤ offset
        → offset ≤ start + total
        → start + total ≤ c
        → Covers a offset c out
        → Covers a (start + total) c out'
    chunks-Covers nil t start total offset a c out out' e le le' lc k =
        Covers-finish_chunks a start total offset c out e le k
    chunks-Covers (cons x cs) t start total offset a c out out' e le le' lc k =
        let (p, q) = refuse-eq-ok (ltb (total - (offset - start)) (rows x)) _ _ e in
        let (mid, r, s) = >>=-eq-ok (build_scalar_plan w x t offset out) _ q in
        let fits : offset + rows x ≤ start + total =
          chunk_fits (rows x) start total offset p le le' in
        chunks-Covers cs t start total (offset + rows x) a c mid out' s (omega arith) fits lc
          (scalar-Covers x t offset a c out mid r (omega arith) k)

  -- If `build_scalar_plan` succeeds on an empty plan, then, whatever the layout's tree, the pieces tile
  -- the layout's rows from `start` on, in order, with no gap and no overlap, and every zone lies within
  -- those rows.
  pub build_scalar_plan-Covers :
      (l : Layout) (t : VortexType) (start : ℕ) (out : ColumnPlan A)
      → build_scalar_plan w l t start empty_plan ≡ ok out
      → Covers start (start + rows l) (start + rows l) out
  build_scalar_plan-Covers l t start out e =
      scalar-Covers l t start start (start + rows l) empty_plan out e (omega arith)
        (record { tiles = refl; zones_within = tt })
