-- ===== src/Encoding/Numeric/Patches/Rows.antt =====
-- The loop of `applyPatches` of internal/encoding/numeric.go over the patches.
use vortex_go.Base.{
  ℕ, ◌+◌, ◌-◌, Bool, true, false, not, ◌||◌, Option, none, some, List, [], ◌∷◌, ltb, leb, set,
  length, if◌then◌else◌,
}
use vortex_go.Outcome.{Result, ok, err, failed, panic, refuse, ◌>>=◌, ◌>>◌}
use vortex_go.Encoding.Values.{Values, values, bits_of, with_bits, index}
use vortex_go.Encoding.Row.{copy_row}

abbrev pub rows_of : Values → ℕ
rows_of (values t n s fs) = n

-- `i > 0 && x <= prev`
unfoldable pub is_after : Option ℕ → ℕ → Bool
is_after none x = true
is_after (some prev) x = ltb prev x

-- The two checks of the index of a patch.
unfoldable pub check_index : (offset rows : ℕ) → (prev : Option ℕ) → ℕ → Result (Unit {0})
unfolding is_after
check_index offset rows prev x =
    if ltb x offset || leb rows (x - offset)
    then err (failed "patch index outside offset and length")
    else refuse (not (is_after prev x)) (failed "patch indices not strictly sorted")

-- out.bits[row] = vals.bits[i]
unfoldable pub write_bits : Values → Values → (row i : ℕ) → Result Values
write_bits out vals row i = elim (index (bits_of vals) i) [
  | err e ↦ err e
  | ok b ↦
      if ltb row (length (bits_of out))
      then ok (with_bits (set (bits_of out) row b) out)
      else err panic
]

unfoldable pub write_row : (numeric_only : Bool) → Values → Values → (row i : ℕ) → Result Values
unfolding write_bits
write_row true out vals row i = write_bits out vals row i
write_row false out vals row i = copy_row out vals row i

-- The loop over the indices, from patch i on.
unfoldable pub patch_rows :
    (numeric_only : Bool)
    → (offset : ℕ) → Values
    → (prev : Option ℕ) → (i : ℕ) → (indices : List ℕ) → Values
    → Result Values
unfolding check_index write_row
patch_rows b offset vals prev i [] out = ok out
patch_rows b offset vals prev i (x ∷ xs) out =
    check_index offset (rows_of out) prev x
    >> (write_row b out vals (x - offset) i >>= λ out'.
        patch_rows b offset vals (some x) (i + 1) xs out')
