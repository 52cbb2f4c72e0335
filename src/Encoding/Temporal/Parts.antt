-- ===== src/Encoding/Temporal/Parts.antt =====
-- The sum that `datetimeParts` makes of the parts of a row (internal/encoding/temporal_delta.go). The
-- code computes it in big integers, and fails where it is no int64.
use vortex_go.Base.{
  ℕ, zero, suc, ◌+◌, ◌-◌, ◌*◌, ◌^◌, ◌<◌, ◌≡◌, refl, subst, Bool, true, false, not, Option, List, [],
  ◌∷◌, ltb, if◌then◌else◌, arith,
}
use vortex_go.Base.Int.{ℤ, pos, negsuc, ◌+ℤ◌, ◌*ℤ◌}
use vortex_go.Outcome.{Result, ok, failed, refuse, ◌>>=◌, ◌>>◌, refuse-eq-ok, ok-injective}
use vortex_go.Schema.{Kind, width, is_signed}
use vortex_go.Encoding.Word.{word, low_bits, as_signed}
use vortex_go.Encoding.Values.{is_valid}

-- set(v): the number that a part's word stands for
unfoldable pub part_of : Kind → ℕ → ℤ
unfolding as_signed
part_of k x = if is_signed k then as_signed x (width k) else pos x

-- value.IsInt64()
is_int64 : ℤ → Bool
is_int64 (pos n) = ltb n (2 ^ 63)
is_int64 (negsuc n) = ltb n (2 ^ 63)

-- uint64(value.Int64())
to_word : ℤ → ℕ
to_word (pos n) = n
to_word (negsuc n) = word - 1 - n

-- days * dayScale + seconds * secondScale + subs
abbrev pub instant : (factor : ℕ) → (days seconds subs : ℤ) → ℤ
instant factor days seconds subs = (days *ℤ pos (86400 * factor)) +ℤ (seconds *ℤ pos factor) +ℤ subs

unfoldable pub datetime_row : (factor : ℕ) → (days seconds subs : ℤ) → Result ℕ
unfolding is_int64 to_word ◌+ℤ◌ ◌*ℤ◌
datetime_row factor days seconds subs = do
  refuse (not (is_int64 (instant factor days seconds subs))) (failed "datetime parts overflow")
  ok (to_word (instant factor days seconds subs))

-- `n` rows are left, from i on; a null row stays 0.
unfoldable pub datetime_rows :
    (n i factor : ℕ) → Option (List Bool) → (days seconds subs : ℕ → Result ℤ) → Result (List ℕ)
unfolding is_valid datetime_row
datetime_rows zero i factor valid days seconds subs = ok []
datetime_rows (suc n) i factor valid days seconds subs = do
  v ← is_valid valid i
  b ← (if v then (do d ← days i; s ← seconds i; p ← subs i; datetime_row factor d s p) else ok 0)
  rest ← datetime_rows n (i + 1) factor valid days seconds subs
  ok (b ∷ rest)

to_word-signed : (z : ℤ) → is_int64 z ≡ true → as_signed (to_word z) 8 ≡ z
unfolding is_int64 to_word as_signed
to_word-signed (pos n) h =
    let small : n < 2 ^ 63 = ground arith in
    let same : low_bits n 64 ≡ n = omega arith in
    let low : ltb n (2 ^ 63) ≡ true = ground arith in rw (same, low) refl
to_word-signed (negsuc n) h =
    let small : n < 2 ^ 63 = ground arith in
    let same : low_bits (word - 1 - n) 64 ≡ word - 1 - n = omega arith in
    let high : ltb (word - 1 - n) (2 ^ 63) ≡ false = ground arith in
    let back : 2 ^ 64 - 1 - (word - 1 - n) ≡ n = omega arith in rw (same, high, back) refl

not-true : (b : Bool) → not b ≡ false → b ≡ true
not-true true h = refl
not-true false h = cc

-- If the parts of a row are added up with success, then the word that is stored for it, read as an
-- int64, is days * 86400 * factor + seconds * factor + subseconds, with no wrap-around.
pub datetime_row-instant :
    (factor : ℕ) (days seconds subs : ℤ) (b : ℕ)
    → datetime_row factor days seconds subs ≡ ok b
    → as_signed b 8 ≡ instant factor days seconds subs
unfolding datetime_row
datetime_row-instant factor days seconds subs b h =
    let (fits, h1) = refuse-eq-ok (not (is_int64 (instant factor days seconds subs))) _ _ h in
    subst (λ x. as_signed x 8 ≡ instant factor days seconds subs) (ok-injective h1)
      (to_word-signed (instant factor days seconds subs) (not-true _ fits))
