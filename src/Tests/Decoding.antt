-- ===== src/Tests/Decoding.antt =====
-- Runs of the array decoder's parts on small inputs.
use vortex_go.Base.{
  ◌<◌, ◌%◌, inl, inr, length, ℕ, ◌-◌, ◌≤◌, ◌≡◌, refl, true, false, none, some, List, [], ◌∷◌,
  get_elem?, arith,
}
use vortex_go.Base.Int.{negsuc, pos, ◌+ℤ◌, ◌*ℤ◌}
use vortex_go.Outcome.{ok, ◌>>=◌}
use vortex_go.Encoding.Numeric.Delta.Block.{lane_index, transposed}
use vortex_go.Encoding.Numeric.Delta.Lanes.{lane_of, transposed-Told}
use vortex_go.Schema.{Kind, simple}
use vortex_go.Encoding.Word.{as_signed, zigzag, unzigzag, as_signed-unzigzag-zigzag}
use vortex_go.Encoding.Values.{Values, values, no_values, no_slices, bits_of}
use vortex_go.Encoding.Row.{copy_row}
use vortex_go.Encoding.Numeric.Sequence.{
  as_integer, out_of_range, last_element, sequence_bits, sequence_values,
}
use vortex_go.Encoding.Numeric.Sequence.Exact.{sequence_values_lem}
use vortex_go.Encoding.Numeric.RunEnd.Rows.{runend_rows, row_of_run, strictly_increasing}
use vortex_go.Encoding.Numeric.RunEnd.Covered.{covered_rows, runend_rows_lem}
use vortex_go.Encoding.Numeric.Patches.Rows.{patch_rows}
use vortex_go.Encoding.Numeric.Patches.Overlay.{patch_rows_lem}

as_signed-unzigzag-zigzag_example : as_signed (unzigzag (zigzag (negsuc 4))) 8 ≡ negsuc 4
as_signed-unzigzag-zigzag_example = as_signed-unzigzag-zigzag (negsuc 4) (omega arith) (omega arith)

abbrev three_ends : List ℕ
three_ends = 2 ∷ 3 ∷ 7 ∷ []

three_ends_rise : strictly_increasing 0 three_ends ≡ true
unfolding strictly_increasing
three_ends_rise = refl

abbrev bytes_of : List ℕ → Values
bytes_of b = values (simple Kind.u8 false) 4 (record no_slices { bits = some b }) no_values

abbrev three_values : Values
three_values = bytes_of (7 ∷ 8 ∷ 9 ∷ [])

abbrev four_zeros : Values
four_zeros = bytes_of (0 ∷ 0 ∷ 0 ∷ 0 ∷ [])

runend_rows_lem_example :
    runend_rows 4 0 three_ends 0 1 three_values four_zeros
    ≡ covered_rows 4 0 three_ends 1 three_values four_zeros
runend_rows_lem_example = runend_rows_lem 4 three_ends 1 three_values four_zeros three_ends_rise

four_rows_have_runs :
    runend_rows 4 0 three_ends 0 1 three_values four_zeros ≡ ok (bytes_of (7 ∷ 8 ∷ 9 ∷ 9 ∷ []))
unfolding runend_rows row_of_run copy_row
four_rows_have_runs = refl

abbrev unpatched : Values
unpatched = bytes_of (1 ∷ 2 ∷ 3 ∷ 4 ∷ [])

abbrev patch_values : Values
patch_values = bytes_of (70 ∷ 80 ∷ [])

abbrev patched : Values
patched = bytes_of (1 ∷ 70 ∷ 3 ∷ 80 ∷ [])

two_patches : patch_rows true 10 patch_values none 0 (11 ∷ 13 ∷ []) unpatched ≡ ok patched
unfolding patch_rows
two_patches = refl

patch_rows_lem_example :
    (10 ≤ 13) × (get_elem? (bits_of patched) (13 - 10) ≡ get_elem? (bits_of patch_values) 1)
patch_rows_lem_example =
    patch_rows_lem 10 patch_values (11 ∷ 13 ∷ []) unpatched patched two_patches 1 13 refl

-- -6, -3, 0, 3 and 6 as int8
abbrev threes : List ℕ
threes = 250 ∷ 253 ∷ 0 ∷ 3 ∷ 6 ∷ []

sequence_bytes : sequence_values true 1 250 3 true 5 ≡ ok threes
unfolding sequence_values out_of_range last_element as_integer as_signed sequence_bits ◌+ℤ◌ ◌*ℤ◌
sequence_bytes = refl

sequence_values_lem_example :
    (length threes ≡ 5)
    × (x : ℕ) × (get_elem? threes 3 ≡ some x)
    × (as_integer true x 1 ≡ as_integer true 250 1 +ℤ as_integer true 3 8 *ℤ pos 3)
sequence_values_lem_example =
    sequence_values_lem Kind.i8 250 3 true 5 3 threes refl (omega arith) (omega arith) (omega arith)
      sequence_bytes

transposed-Told_example :
    (entry : ℕ) × ((lane_index 9 35 >>= transposed) ≡ ok entry)
    × (entry < 1024)
    × (entry % 16 ≡ 9)
    × (lane_of 16 entry ≡ 35)
transposed-Told_example = transposed-Told 16 9 35 (inr (inl refl)) (omega arith) (omega arith)
