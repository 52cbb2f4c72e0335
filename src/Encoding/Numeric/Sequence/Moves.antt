-- ===== src/Encoding/Numeric/Sequence/Moves.antt =====
-- A number of an integer type that is moved up and down, and what its bits are read as.
use vortex_go.Base.{
  subst, ℕ, ◌+◌, ◌-◌, ◌*◌, ◌%◌, ◌^◌, ◌≤◌, ◌<◌, ◌≡◌, refl, ap, ◌∙◌, ◌⊎◌, Bool, true, false, arith,
}
use vortex_go.Base.Powers.{two_pow-pos}
use native.Mathlib.Nat.{mod-lt}
use vortex_go.Base.Int.{eq_of_parts, +ℤ_parts, ℤ, pos, negsuc, pos_part, neg_part, sub_ℕ, ◌+ℤ◌}
use vortex_go.Schema.{width}
use vortex_go.Encoding.Word.{word, low_bits, as_signed}
use vortex_go.Encoding.Numeric.Sequence.{as_integer, out_of_range}

-- A number x of half the range h is read as p - n.
abbrev pub Signs : (h x p n : ℕ) → Type 0
Signs h x p n = ((x < h) × (p ≡ x) × (n ≡ 0)) ⊎ ((h ≤ x) × (p ≡ 0) × (n + x ≡ 2 * h))

-- The last number, first + up_last - down_last, is in the range of the type that has half the range h.
-- Then the bits of a number before it, first + up - down, where r is up - down modulo the word, are read
-- as vp - vn.
abbrev UnsignedExact : (h : ℕ) → Type 0
UnsignedExact h =
    (base r up down up_last down_last more less vp vn last : ℕ)
    → base < 2 * h
    → up ≤ up_last
    → down ≤ down_last
    → (up_last ≡ 0) ⊎ (down_last ≡ 0)
    → r + down + less * word ≡ up + more * word
    → last + down_last ≡ base + up_last
    → last < 2 * h
    → vp + down ≡ vn + base + up
    → (base + r) % word % (2 * h) + vn ≡ vp

abbrev SignedExact : (h : ℕ) → Type 0
SignedExact h =
    (base fp fn r up down up_last down_last more less vp vn lp ln xp xn : ℕ)
    → Signs h base fp fn
    → up ≤ up_last
    → down ≤ down_last
    → (up_last ≡ 0) ⊎ (down_last ≡ 0)
    → r + down + less * word ≡ up + more * word
    → lp + fn + down_last ≡ ln + fp + up_last
    → lp < h
    → ln ≤ h
    → vp + fn + down ≡ vn + fp + up
    → Signs h ((base + r) % word % (2 * h)) xp xn
    → xp + vn ≡ vp + xn

-- What the proof needs of the width of an integer type.
pub record Width (w : ℕ) : Type 0 where
  double : 2 ^ (w * 8) ≡ 2 * 2 ^ (w * 8 - 1)
  cut : (x : ℕ) → low_bits x (w * 8) ≡ x % 2 ^ (w * 8)
  pub signs :
      (x : ℕ)
      → x < 2 ^ (w * 8)
      → Signs (2 ^ (w * 8 - 1)) x (pos_part (as_signed x w)) (neg_part (as_signed x w))
  unsigned : UnsignedExact (2 ^ (w * 8 - 1))
  signed : SignedExact (2 ^ (w * 8 - 1))

pub width1 : Width 1
unfolding as_signed
width1 = record {
  double = refl;
  cut = λ x. refl;
  signs = λ x h. ground arith;
  unsigned = λ base r up down up_last down_last more less vp vn last a b c d e f g h. ground arith;
  signed = λ base fp fn r up down up_last down_last more less vp vn lp ln xp xn a b c d e f g h k l.
      ground arith;
}

pub width2 : Width 2
unfolding as_signed
width2 = record {
  double = refl;
  cut = λ x. refl;
  signs = λ x h. ground arith;
  unsigned = λ base r up down up_last down_last more less vp vn last a b c d e f g h. ground arith;
  signed = λ base fp fn r up down up_last down_last more less vp vn lp ln xp xn a b c d e f g h k l.
      ground arith;
}

pub width4 : Width 4
unfolding as_signed
width4 = record {
  double = refl;
  cut = λ x. refl;
  signs = λ x h. ground arith;
  unsigned = λ base r up down up_last down_last more less vp vn last a b c d e f g h. ground arith;
  signed = λ base fp fn r up down up_last down_last more less vp vn lp ln xp xn a b c d e f g h k l.
      ground arith;
}

pub width8 : Width 8
unfolding as_signed
width8 = record {
  double = refl;
  cut = λ x. refl;
  signs = λ x h. ground arith;
  unsigned = λ base r up down up_last down_last more less vp vn last a b c d e f g h. ground arith;
  signed = λ base fp fn r up down up_last down_last more less vp vn lp ln xp xn a b c d e f g h k l.
      ground arith;
}

sub_ℕ-parts : (a b : ℕ) → pos_part (sub_ℕ a b) + b ≡ neg_part (sub_ℕ a b) + a
sub_ℕ-parts a b = ground arith

-- The parts of a number that is moved up and down.
moved_parts :
    (z : ℤ) (up down : ℕ)
    → pos_part (z +ℤ sub_ℕ up down) + neg_part z + down
      ≡ neg_part (z +ℤ sub_ℕ up down) + pos_part z + up
moved_parts z up down =
    let whole = +ℤ_parts z (sub_ℕ up down) in let moves = sub_ℕ-parts up down in omega arith

in_unsigned :
    (w : ℕ) (z : ℤ) → out_of_range false w z ≡ false → (neg_part z ≡ 0) × (pos_part z < 2 ^ (w * 8))
unfolding out_of_range
in_unsigned w (pos x) e = ground arith
in_unsigned w (negsuc x) e = cc

in_signed :
    (w : ℕ) (z : ℤ)
    → out_of_range true w z ≡ false
    → (pos_part z < 2 ^ (w * 8 - 1)) × (neg_part z ≤ 2 ^ (w * 8 - 1))
unfolding out_of_range
in_signed w (pos x) e = ground arith
in_signed w (negsuc x) e = ground arith

cut_lt : (w y : ℕ) → Width w → low_bits y (w * 8) < 2 ^ (w * 8)
cut_lt w y width =
    let cut = width.cut y in
    let lt : y % 2 ^ (w * 8) < 2 ^ (w * 8) = mod-lt y (two_pow-pos (w * 8)) in omega arith

cut_twice : (w y : ℕ) → Width w → low_bits y (w * 8) ≡ y % (2 * 2 ^ (w * 8 - 1))
cut_twice w y width = width.cut y ∙ ap (λ (m : ℕ). y % m) width.double

-- Where the last number is in the range of the type, the bits of one before it are exact.
pub exact :
    (signed : Bool) (w base r up down up_last down_last more less : ℕ)
    → Width w
    → base < 2 ^ (w * 8)
    → up ≤ up_last
    → down ≤ down_last
    → (up_last ≡ 0) ⊎ (down_last ≡ 0)
    → r + down + less * word ≡ up + more * word
    → out_of_range signed w (as_integer signed base w +ℤ sub_ℕ up_last down_last) ≡ false
    → as_integer signed (low_bits ((base + r) % word) (w * 8)) w
      ≡ as_integer signed base w +ℤ sub_ℕ up down
unfolding as_integer
exact false w base r up down up_last down_last more less width fits u d one res inside =
    let v : ℤ = pos base +ℤ sub_ℕ up down in
    let l : ℤ = pos base +ℤ sub_ℕ up_last down_last in
    let (none_below, less_than) = in_unsigned w l inside in
    let last = moved_parts (pos base) up_last down_last in
    let here = moved_parts (pos base) up down in
    let double = width.double in
    let read =
      width.unsigned base r up down up_last down_last more less (pos_part v) (neg_part v)
        (pos_part l) (omega arith) u d one res (omega arith) (omega arith) (omega arith) in
    let cut = cut_twice w ((base + r) % word) width in eq_of_parts _ _ (omega arith)
exact true w base r up down up_last down_last more less width fits u d one res inside =
    let a : ℤ = as_signed base w in
    let v : ℤ = a +ℤ sub_ℕ up down in
    let l : ℤ = a +ℤ sub_ℕ up_last down_last in
    let x : ℕ = low_bits ((base + r) % word) (w * 8) in
    let (less_than, over) = in_signed w l inside in
    let last = moved_parts a up_last down_last in
    let here = moved_parts a up down in
    eq_of_parts _ _ (
      width.signed base (pos_part a) (neg_part a) r up down up_last down_last more less (pos_part v)
        (neg_part v) (pos_part l) (neg_part l) (pos_part (as_signed x w)) (neg_part (as_signed x w))
        (width.signs base fits) u d one res last less_than over here
        (subst
          (λ (y : ℕ).
            Signs (2 ^ (w * 8 - 1)) y (pos_part (as_signed x w)) (neg_part (as_signed x w)))
          (cut_twice w ((base + r) % word) width) (width.signs x (cut_lt w _ width))))
