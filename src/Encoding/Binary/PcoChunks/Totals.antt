-- ===== src/Encoding/Binary/PcoChunks/Totals.antt =====
-- The counts that `decoder.pco` hands to internal/pco, and the bytes that come back.
use vortex_go.Base.{
  ℕ, ◌+◌, ◌*◌, ◌^◌, ◌≡◌, sym, ap, ◌∙◌, List, [], ◌∷◌, ltb, ◌==◌, length, arith, inl, inr,
  Bool-cases,
}
use vortex_go.Outcome.{ok, failed, >>=-eq-ok, refuse-eq-ok, ok-injective}
use vortex_go.Schema as Schema
use vortex_go.Schema.{Kind}
use vortex_go.Encoding.Proto.{Proto, parse_proto, num}
use vortex_go.Encoding.Binary.Pco.{page_counts, chunk_counts}
use vortex_go.Pco.Words.{Floats}
use vortex_go.Pco.Decode as Pco
use vortex_go.Pco.Decode.Packed.{sum, sum_all, decode-AreBytes}

-- Pairs that agree, by their parts.
parts : {A B : Type 0} (q r : A × B) → ok q ≡ ok r → (q.0 ≡ r.0) × (q.1 ≡ r.1)
parts q r h = let e = ok-injective h in (ap (λ x. x.0) e, ap (λ x. x.1) e)

-- The totals that page_counts carries along are the sums of the counts.
page_counts-sum :
    (rows total : ℕ) (m : Proto) (q : List ℕ × ℕ)
    → page_counts rows total m ≡ ok q
    → q.1 ≡ total + sum q.0
unfolding page_counts
page_counts-sum rows total [] q h =
    let (e, f) = parts ([], total) q h in let g : sum q.0 ≡ 0 = ap sum (sym e) in omega arith
page_counts-sum rows total (p ∷ ps) q h = elim (Bool-cases (p.tag == 1)) [
  | inl e ↦
      let (page, h1, k1) = >>=-eq-ok (parse_proto p.content) _ (rw (e, page_counts) at h) in
      let (b1, k2) =
        refuse-eq-ok (ltb (2 ^ 24) (num page 1)) (failed "PCO page exceeds value limit") _ k1 in
      let (b2, k3) =
        refuse-eq-ok (ltb rows (total + num page 1)) (failed "PCO has too many values") _ k2 in
      let (r, h2, k4) = >>=-eq-ok (page_counts rows (total + num page 1) ps) _ k3 in
      let ih : r.1 ≡ total + num page 1 + sum r.0 =
        page_counts-sum rows (total + num page 1) ps r h2 in
      let (f, g) = parts (num page 1 ∷ r.0, r.1) q k4 in
      let s : sum q.0 ≡ num page 1 + sum r.0 = ap sum (sym f) in omega arith
  | inr e ↦ page_counts-sum rows total ps q (rw (e, page_counts) at h)
]

chunk_counts-sum :
    (rows total : ℕ) (m : Proto) (q : List (List ℕ) × ℕ)
    → chunk_counts rows total m ≡ ok q
    → q.1 ≡ total + sum_all q.0
unfolding chunk_counts
chunk_counts-sum rows total [] q h =
    let (e, f) = parts ([], total) q h in
    let g : sum_all q.0 ≡ 0 = ap sum_all (sym e) in omega arith
chunk_counts-sum rows total (p ∷ ps) q h = elim (Bool-cases (p.tag == 2)) [
  | inl e ↦
      let (chunk, h1, k1) = >>=-eq-ok (parse_proto p.content) _ (rw (e, chunk_counts) at h) in
      let (c, h2, k2) = >>=-eq-ok (page_counts rows total chunk) _ k1 in
      let (r, h3, k3) = >>=-eq-ok (chunk_counts rows c.1 ps) _ k2 in
      let here : c.1 ≡ total + sum c.0 = page_counts-sum rows total chunk c h2 in
      let ih : r.1 ≡ c.1 + sum_all r.0 = chunk_counts-sum rows c.1 ps r h3 in
      let (f, g) = parts (c.0 ∷ r.0, r.1) q k3 in
      let s : sum_all q.0 ≡ sum c.0 + sum_all r.0 = ap sum_all (sym f) in omega arith
  | inr e ↦ chunk_counts-sum rows total ps q (rw (e, chunk_counts) at h)
]

-- The total that `decoder.pco` compares with its valid rows is what internal/pco decodes: output for
-- the counts of the metadata has the bytes of that many values, so that the later check of its length
-- never refuses it.
pub pco_output_lem :
    (floats : Floats) (header : List ℕ) (chunks pages : List (List ℕ)) (kind : Kind) (rows : ℕ)
    (m : Proto) (counts : List (List ℕ)) (total : ℕ) (out : List ℕ)
    → chunk_counts rows 0 m ≡ ok (counts, total)
    → Pco.decode floats header chunks pages counts kind ≡ ok out
    → length out ≡ total * Schema.width kind
pco_output_lem floats header chunks pages kind rows m counts total out h k =
    let e : total ≡ 0 + sum_all counts = chunk_counts-sum rows 0 m (counts, total) h in
    let f : sum_all counts ≡ total = omega arith in
    let (a, b, c, d) = (decode-AreBytes floats header chunks pages counts kind).at out k in
    d.0 ∙ ap (λ (t : ℕ). t * Schema.width kind) f
