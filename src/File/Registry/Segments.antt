-- ===== src/File/Registry/Segments.antt =====
-- The segments of a registry lie within the file.
use vortex_go.Base.{
  ℕ, zero, suc, ◌+◌, ◌-◌, ◌/◌, false, ◌≤◌, ◌≡◌, List, All, ltb, ◌||◌, arith, length, subst,
}
use vortex_go.Outcome.{Result, ok, >>=-eq-ok, refuse-ok, refuse-eq-ok, ok-injective}
use vortex_go.File.Tables.{SegmentSpec, Footer}
use vortex_go.File.Limits.{check_count, max_nodes}
use vortex_go.File.Registry.{
  Segment, Registry, parse_segment, parse_names, parse_segments, parse_footer,
}

-- The segment's bytes are bytes of a file of this size.
abbrev pub Within : (size : ℕ) → Segment → Type 0
Within size s = s.offset + s.length ≤ size

parse_segment-Within :
    (size : ℕ) (v : SegmentSpec) (s : Segment) → parse_segment size v ≡ ok s → Within size s
unfolding parse_segment
parse_segment-Within size v s h =
    let (p, h1) = refuse-eq-ok (ltb size v.offset || ltb (size - v.offset) v.length) _ _ h in
    let (q, h2) = refuse-eq-ok (ltb 30 v.alignment) _ _ h1 in
    let (r, h3) = refuse-eq-ok v.has_transforms _ _ h2 in
    let inside : v.offset + v.length ≤ size = ground arith in
    subst (Within size) (ok-injective h3) inside

parse_segments-Within :
    (n i size : ℕ) (spec : ℕ → Result SegmentSpec) (ss : List Segment)
    → parse_segments n i size spec ≡ ok ss
    → All (Within size) ss × (length ss ≡ n)
unfolding parse_segments
parse_segments-Within zero i size spec ss h =
    subst (λ xs. All (Within size) xs × (length xs ≡ 0)) (ok-injective h) (tt, omega arith)
parse_segments-Within (suc n) i size spec ss h =
    let (v, p, h1) = >>=-eq-ok (spec i) _ h in
    let (s, q, h2) = >>=-eq-ok (parse_segment size v) _ h1 in
    let (rest, r, h3) = >>=-eq-ok (parse_segments n (i + 1) size spec) _ h2 in
    let (inside, count) = parse_segments-Within n (i + 1) size spec rest r in
    subst (λ xs. All (Within size) xs × (length xs ≡ suc n)) (ok-injective h3)
      ((parse_segment-Within size v s q, inside), omega arith)

check_count-le :
    (n bytes stride : ℕ) {u : Unit {0}} → check_count n bytes stride ≡ ok u → n ≤ max_nodes
unfolding check_count
check_count-le n bytes stride h =
    let in_limit : (ltb max_nodes n || ltb (bytes / stride) n) ≡ false = refuse-ok _ _ h in
    ground arith

-- If `parse_footer` succeeds, every segment of the registry lies within the file, and there are as
-- many as the footer lists, no more than the limit on nodes.
pub parse_footer-Within :
    (size bytes : ℕ) (f : Footer) (r : Registry)
    → parse_footer size bytes f ≡ ok r
    → All (Within size) r.segments × (length r.segments ≡ f.segments) × (f.segments ≤ max_nodes)
unfolding parse_footer
parse_footer-Within size bytes f r h =
    let (u, p, h1) = >>=-eq-ok (check_count f.arrays bytes 4) _ h in
    let (names, q, h2) = >>=-eq-ok (parse_names f.arrays 0 0 f.array_id) _ h1 in
    let (u2, p2, h3) = >>=-eq-ok (check_count f.layouts bytes 4) _ h2 in
    let (more, q2, h4) = >>=-eq-ok (parse_names f.layouts 0 names.0 f.layout_id) _ h3 in
    let (u3, p3, h5) = >>=-eq-ok (check_count f.segments bytes 16) _ h4 in
    let (ss, r3, h6) = >>=-eq-ok (parse_segments f.segments 0 size f.segment) _ h5 in
    let (inside, counted) = parse_segments-Within f.segments 0 size f.segment ss r3 in
    let small : f.segments ≤ max_nodes = check_count-le f.segments bytes 16 p3 in
    subst
      (λ (x : Registry).
        All (Within size) x.segments × (length x.segments ≡ f.segments) × (f.segments ≤ max_nodes))
      (ok-injective h6) (inside, counted, small)
