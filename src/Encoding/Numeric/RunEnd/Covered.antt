-- ===== src/Encoding/Numeric/RunEnd/Covered.antt =====
-- The runs that `runend` gives the rows, against the number of run ends that a position has passed.
use vortex_go.Base.{
  ℕ, zero, suc, ◌+◌, ◌≤◌, ◌<◌, Bool, true, false, ◌&&◌, List, [], ◌∷◌, ltb, leb, drop, length,
  if◌then◌else◌, ◌≡◌, refl, ap, subst, ◌∙◌, arith,
}
use vortex_go.Outcome.{Result, ok, err, ◌>>=◌}
use vortex_go.Encoding.Values.{Values}
use vortex_go.Encoding.Numeric.RunEnd.Rows.{strictly_increasing, advance, row_of_run, runend_rows}

-- How many of the ends a position has reached.
unfoldable pub count_passed : List ℕ → (at : ℕ) → ℕ
count_passed [] at = 0
count_passed (x ∷ xs) at = let rest = count_passed xs at in if leb x at then suc rest else rest

-- Rows filled by the number of the ends that each row's position has reached, from row i on: an error
-- at the first row that has reached them all.
unfoldable pub covered_rows :
    (n i : ℕ) → (ends : List ℕ) → (offset : ℕ) → (vals : Values) → Values → Result Values
unfolding count_passed
covered_rows zero i ends offset vals out = ok out
covered_rows (suc n) i ends offset vals out =
    row_of_run (length ends) (count_passed ends (offset + i)) vals i out >>= λ out'.
    covered_rows n (i + 1) ends offset vals out'

&&-right : (a : Bool) {b : Bool} → (a && b) ≡ true → b ≡ true
&&-right true h = h
&&-right false h = cc

-- Ends after one that is not reached are not reached.
count_passed-none :
    (xs : List ℕ) (p at : ℕ) → strictly_increasing p xs ≡ true → at < p → count_passed xs at ≡ 0
unfolding strictly_increasing count_passed
count_passed-none [] p at s h = refl
count_passed-none (x ∷ xs) p at s h =
    let above : p < x = ground arith in
    let tail : strictly_increasing x xs ≡ true = &&-right (ltb p x) s in
    let rest : count_passed xs at ≡ 0 = count_passed-none xs x at tail (omega arith) in ground arith

-- Walking over the ends from the front counts those that are reached.
advance_lem :
    (xs : List ℕ) (p run at : ℕ)
    → strictly_increasing p xs ≡ true
    → advance xs run at ≡ run + count_passed xs at
unfolding strictly_increasing count_passed advance
advance_lem [] p run at s = omega arith
advance_lem (x ∷ xs) p run at s =
    let tail : strictly_increasing x xs ≡ true = &&-right (ltb p x) s in
    let rest : advance xs (run + 1) at ≡ (run + 1) + count_passed xs at =
      advance_lem xs x (run + 1) at tail in
    let none_after : at < x → count_passed xs at ≡ 0 = count_passed-none xs x at tail in
    ground arith

-- A walk that starts at a run that the position has reached stops where one from the front would.
advance_from :
    (xs : List ℕ) (p run skipped from at : ℕ)
    → strictly_increasing p xs ≡ true
    → run ≤ count_passed xs at
    → from ≡ skipped + run
    → advance (drop run xs) from at ≡ skipped + count_passed xs at
unfolding strictly_increasing count_passed
advance_from xs p zero skipped from at s h e =
    let whole : advance xs from at ≡ from + count_passed xs at = advance_lem xs p from at s in
    omega arith
advance_from [] p (suc run) skipped from at s h e = elim h [ ]
advance_from (x ∷ xs) p (suc run) skipped from at s h e =
    let tail : strictly_increasing x xs ≡ true = &&-right (ltb p x) s in
    let none_after : (at < x → count_passed xs at ≡ 0) = count_passed-none xs x at tail in
    let below : run ≤ count_passed xs at = ground arith in
    let rest : advance (drop run xs) from at ≡ suc skipped + count_passed xs at =
      advance_from xs x run (suc skipped) from at tail below (omega arith) in
    ground arith

-- A later position has reached no fewer ends.
count_passed-later : (xs : List ℕ) (at : ℕ) → count_passed xs at ≤ count_passed xs (at + 1)
unfolding count_passed
count_passed-later [] at = omega arith
count_passed-later (x ∷ xs) at =
    let rest : count_passed xs at ≤ count_passed xs (at + 1) = count_passed-later xs at in
    ground arith

>>=-cong :
    (m : Result Values) {f g : Values → Result Values}
    → ((v : Values) → f v ≡ g v)
    → (m >>= f) ≡ (m >>= g)
>>=-cong (ok v) h = h v
>>=-cong (err e) h = refl

rows_from :
    (n i : ℕ) (ends : List ℕ) (run offset : ℕ) (vals out : Values)
    → strictly_increasing 0 ends ≡ true
    → run ≤ count_passed ends (offset + i)
    → runend_rows n i ends run offset vals out ≡ covered_rows n i ends offset vals out
unfolding runend_rows covered_rows
rows_from zero i ends run offset vals out s h = refl
rows_from (suc n) i ends run offset vals out s h =
    let here : advance (drop run ends) run (offset + i) ≡ count_passed ends (offset + i) =
      omega (arith, advance_from ends 0 run 0 run (offset + i) s h (omega arith)) in
    let reached : count_passed ends (offset + i) ≤ count_passed ends (offset + (i + 1)) =
      subst (λ p. count_passed ends (offset + i) ≤ count_passed ends p) (omega arith)
        (count_passed-later ends (offset + i)) in
    ap
      (λ r. row_of_run (length ends) r vals i out >>= λ out'.
        runend_rows n (i + 1) ends r offset vals out')
      here
    ∙ >>=-cong (row_of_run (length ends) (count_passed ends (offset + i)) vals i out)
        (λ v. rows_from n (i + 1) ends (count_passed ends (offset + i)) offset vals v s reached)

-- For strictly increasing run ends, the loop of `runend`, which resumes its walk over the ends where
-- the row before left it, comes to the same as copying into each row i the value whose index is the
-- number of the ends that are at most offset + i, with the error at the first row for which that is
-- the number of all the ends.
pub runend_rows_lem :
    (n : ℕ) (ends : List ℕ) (offset : ℕ) (vals out : Values)
    → strictly_increasing 0 ends ≡ true
    → runend_rows n 0 ends 0 offset vals out ≡ covered_rows n 0 ends offset vals out
runend_rows_lem n ends offset vals out s = rows_from n 0 ends 0 offset vals out s (omega arith)
