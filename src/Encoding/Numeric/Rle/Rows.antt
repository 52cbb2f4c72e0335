-- ===== src/Encoding/Numeric/Rle/Rows.antt =====
-- The loop of `rle` over the rows (internal/encoding/numeric.go), and what a row is.
use vortex_go.Base.{
  ℕ, zero, suc, ◌+◌, ◌-◌, ◌/◌, ◌≤◌, ◌<◌, ◌≡◌, Bool, false, ◌||◌, Option, none, some, List, [], ◌∷◌,
  ltb, leb, ◌==◌, ◌⊎◌, inl, inr, Bool-cases, refl, sym, if◌then◌else◌, arith,
}
use vortex_go.Outcome.{
  Result, ok, failed, refuse, ◌>>=◌, ◌>>◌, >>=-eq-ok, ok-injective, refuse-eq-ok,
}
use vortex_go.Encoding.Values.{index, is_valid}

-- A chunk with one value has no codes to speak of.
code_in : (count code : ℕ) → ℕ
code_in count code = if count == 1 then 0 else code

-- The end of a chunk's values: the next chunk's start, or the end of all of them.
chunk_end : List ℕ → (ol vl chunk : ℕ) → Result ℕ
chunk_end offsets ol vl chunk = if ltb (chunk + 1) ol then index offsets (chunk + 1) else ok vl

-- Row `j` of the chunks, which is not null.
unfoldable pub rle_row : (j vl ol : ℕ) → (vals offsets idx : List ℕ) → Result ℕ
unfolding code_in chunk_end
rle_row j vl ol vals offsets idx = do
  start ← index offsets (j / 1024)
  end ← chunk_end offsets ol vl (j / 1024)
  refuse (leb end start || ltb vl end) (failed "invalid RLE value offsets")
  code ← index idx j
  refuse (leb (end - start) (code_in (end - start) code)) (failed "RLE index out of chunk range")
  index vals (start + code_in (end - start) code)

-- `n` rows are left, from row j of the chunks on; a null is none.
unfoldable pub rle_rows :
    (n j vl ol : ℕ) → (vals offsets idx : List ℕ) → Option (List Bool) → Result (List (Option ℕ))
unfolding rle_row is_valid
rle_rows zero j vl ol vals offsets idx valid = ok []
rle_rows (suc n) j vl ol vals offsets idx valid = do
  v ← is_valid valid j
  b ← (if v then (rle_row j vl ol vals offsets idx >>= λ x. ok (some x)) else ok none)
  rest ← rle_rows n (j + 1) vl ol vals offsets idx valid
  ok (b ∷ rest)

-- Where a row of a chunk comes from: the value that its code names, from the chunk's start on, in the
-- range up to the next chunk's start, or for the last chunk up to the end of the values. A chunk with one
-- value has that one, whatever the code.
pub record FromChunk (j vl ol : ℕ) (vals offsets idx : List ℕ) (b : ℕ) : Type 0 where
  pub start : ℕ
  pub end : ℕ
  pub code : ℕ
  pub starts : index offsets (j / 1024) ≡ ok start
  pub ends :
      ((j / 1024 + 1 < ol) × (index offsets (j / 1024 + 1) ≡ ok end))
      ⊎ ((ol ≤ j / 1024 + 1) × (end ≡ vl))
  pub coded : (index idx j ≡ ok code) ⊎ ((end ≡ start + 1) × (code ≡ 0))
  pub inside : start + code < end
  pub bounded : end ≤ vl
  pub value : index vals (start + code) ≡ ok b

end_of :
    (chunk ol vl : ℕ) (offsets : List ℕ) {end : ℕ}
    → chunk_end offsets ol vl chunk ≡ ok end
    → ((chunk + 1 < ol) × (index offsets (chunk + 1) ≡ ok end)) ⊎ ((ol ≤ chunk + 1) × (end ≡ vl))
unfolding chunk_end
end_of chunk ol vl offsets e = elim (Bool-cases (ltb (chunk + 1) ol)) [
  | inl t ↦ inl (ground arith, rw t at e)
  | inr t ↦ inr (ground arith, sym (ok-injective (rw t at e)))
]

code_of :
    (start end vl code j : ℕ) (idx : List ℕ)
    → (leb end start || ltb vl end) ≡ false
    → index idx j ≡ ok code
    → (index idx j ≡ ok (code_in (end - start) code))
      ⊎ ((end ≡ start + 1) × (code_in (end - start) code ≡ 0))
unfolding code_in
code_of start end vl code j idx h e = elim (Bool-cases (end - start == 1)) [
  | inl t ↦ inr (ground arith, rw t refl)
  | inr t ↦ inl (rw t e)
]

-- If a row is decoded, then its bits are the value of its chunk that its code names: at a place not
-- before the start that the offsets give the chunk, and before the next chunk's start, or for the last
-- chunk the end of the values. That end is no more than the number of the values. A chunk with one value
-- has that one, whatever the code.
pub rle_row-FromChunk :
    (j vl ol : ℕ) (vals offsets idx : List ℕ) (b : ℕ)
    → rle_row j vl ol vals offsets idx ≡ ok b
    → FromChunk j vl ol vals offsets idx b
unfolding rle_row
rle_row-FromChunk j vl ol vals offsets idx b h =
    let (start, p, h1) = >>=-eq-ok (index offsets (j / 1024)) _ h in
    let (end, q, h2) = >>=-eq-ok (chunk_end offsets ol vl (j / 1024)) _ h1 in
    let (range, h3) = refuse-eq-ok (leb end start || ltb vl end) _ _ h2 in
    let (code, r, h4) = >>=-eq-ok (index idx j) _ h3 in
    let (small, h5) = refuse-eq-ok (leb (end - start) (code_in (end - start) code)) _ _ h4 in
    let place = code_in (end - start) code in
    record {
      start = start;
      end = end;
      code = place;
      starts = p;
      ends = end_of (j / 1024) ol vl offsets q;
      coded = code_of start end vl code j idx range r;
      inside = between start end vl place range small;
      bounded = at_most start end vl range;
      value = h5;
    }
  where
    between :
        (start end vl place : ℕ)
        → (leb end start || ltb vl end) ≡ false
        → leb (end - start) place ≡ false
        → start + place < end
    between start end vl place h k = ground arith

    at_most : (start end vl : ℕ) → (leb end start || ltb vl end) ≡ false → end ≤ vl
    at_most start end vl h = ground arith
