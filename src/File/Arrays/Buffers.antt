-- ===== src/File/Arrays/Buffers.antt =====
-- The loop of `parseArray` over the buffers (array.go), and where each of them lies in the data.
use vortex_go.Base.{
  ℕ, zero, suc, ◌+◌, ◌≤◌, ◌≡◌, refl, ap, subst, List, [], ◌∷◌, take, drop, length, ltb, arith,
}
use vortex_go.Outcome.{
  Result, ok, invalid, unsupported, refuse, ◌>>=◌, ◌>>◌, >>=-eq-ok, refuse-eq-ok, ok-injective,
}
use vortex_go.File.Tables.{BufferView}

-- b[start:start+n]
abbrev pub range : List ℕ → (start n : ℕ) → List ℕ
range b start n = take n (drop start b)

-- `n` buffers are left, from i on, and the one before them ended at `offset`; the sums of 64 bits
-- do not wrap, as no end passes the length of the data.
unfoldable pub parse_buffers :
    (n i offset : ℕ) → List ℕ → (ℕ → Result BufferView) → Result (List (List ℕ))
parse_buffers zero i offset b buffer = ok []
parse_buffers (suc n) i offset b buffer = do
  v ← buffer i
  refuse (ltb 30 v.alignment) (invalid "array buffer alignment")
  refuse v.is_compressed (unsupported "array buffer compression")
  refuse (ltb (length b) (offset + v.padding + v.length)) (invalid "array buffer range")
  rest ← parse_buffers n (i + 1) (offset + v.padding + v.length) b buffer
  ok (range b (offset + v.padding) v.length ∷ rest)

-- The buffers are ranges of the data from `offset` on, each behind the one before it.
abbrev pub AreRanges : (b : List ℕ) → (offset : ℕ) → List (List ℕ) → Type 0
AreRanges b offset [] = offset ≤ length b
AreRanges b offset (buffer ∷ rest) =
    (start : ℕ) × (n : ℕ) × (offset ≤ start)
    × (start + n ≤ length b)
    × (buffer ≡ range b start n)
    × AreRanges b (start + n) rest

-- If the loop over the buffers accepts all of them, having come to a place inside the data, then
-- they are ranges of the data, in order, none of which overlaps another or reaches past the end,
-- and there are as many as the table has.
pub parse_buffers-AreRanges :
    (n i offset : ℕ) (b : List ℕ) (buffer : ℕ → Result BufferView) (out : List (List ℕ))
    → offset ≤ length b
    → parse_buffers n i offset b buffer ≡ ok out
    → (length out ≡ n) × AreRanges b offset out
unfolding parse_buffers
parse_buffers-AreRanges zero i offset b buffer out fits h =
    subst (λ bs. (length bs ≡ zero) × AreRanges b offset bs) (ok-injective h) (refl, fits)
parse_buffers-AreRanges (suc n) i offset b buffer out fits h =
    let (v, p, h1) = >>=-eq-ok (buffer i) _ h in
    let (aligned, h2) = refuse-eq-ok (ltb 30 v.alignment) _ _ h1 in
    let (plain, h3) = refuse-eq-ok v.is_compressed _ _ h2 in
    let (inside, h4) = refuse-eq-ok (ltb (length b) (offset + v.padding + v.length)) _ _ h3 in
    let end : offset + v.padding + v.length ≤ length b = ground arith in
    let (rest, q, h5) =
      >>=-eq-ok (parse_buffers n (i + 1) (offset + v.padding + v.length) b buffer) _ h4 in
    let (count, ranges) =
      parse_buffers-AreRanges n (i + 1) (offset + v.padding + v.length) b buffer rest end q in
    subst (λ bs. (length bs ≡ suc n) × AreRanges b offset bs) (ok-injective h5)
      (ap suc count, (offset + v.padding, v.length, omega arith, end, refl, ranges))
