-- ===== src/Encoding/Numeric/RunEnd/Rows.antt =====
-- The loop of `runend` of internal/encoding/numeric.go over the rows. The child holds `count` ends, so
-- `count` is their number here.
use vortex_go.Base.{
  ℕ, zero, suc, ◌+◌, Bool, true, ◌&&◌, ltb, List, [], ◌∷◌, leb, drop, length, if◌then◌else◌,
}
use vortex_go.Outcome.{Result, ok, err, failed, ◌>>=◌}
use vortex_go.Encoding.Values.{Values}
use vortex_go.Encoding.Row.{copy_row}

-- `x == 0 || (i > 0 && x <= ends.bits[i-1])` for no run: `previous` is 0 for the first.
unfoldable pub strictly_increasing : (previous : ℕ) → List ℕ → Bool
strictly_increasing previous [] = true
strictly_increasing previous (x ∷ xs) = ltb previous x && strictly_increasing x xs

-- `for run < count && ends.bits[run] <= at { run++ }` on the ends from `run` on
unfoldable pub advance : (ends : List ℕ) → (run at : ℕ) → ℕ
advance [] run at = run
advance (x ∷ xs) run at = let rest = advance xs (run + 1) at in if leb x at then rest else run

-- out.at(i, vals, run), an error where no run is left
unfoldable pub row_of_run : (count run : ℕ) → (vals : Values) → (i : ℕ) → Values → Result Values
row_of_run count run vals i out =
    if leb count run then err (failed "run ends do not cover array") else copy_row out vals i run

-- The loop from row i on, at the run of the row before: `n` rows are left.
unfoldable pub runend_rows :
    (n i : ℕ) → (ends : List ℕ) → (run offset : ℕ) → (vals : Values) → Values → Result Values
unfolding advance
runend_rows zero i ends run offset vals out = ok out
runend_rows (suc n) i ends run offset vals out =
    let run' = advance (drop run ends) run (offset + i) in
    row_of_run (length ends) run' vals i out >>= λ out'.
    runend_rows n (i + 1) ends run' offset vals out'
