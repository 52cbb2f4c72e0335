-- ===== src/Pco/Words/Bounds.antt =====
-- The words of a width stay within it.
use vortex_go.Base.{
  ℕ, suc, ◌+◌, ◌-◌, ◌*◌, ◌/◌, ◌%◌, ◌^◌, ◌≤◌, ◌<◌, ◌≡◌, sym, ap, ◌∙◌, inl, inr, true, false, ◌==◌,
  arith, dec_lt, Bool-cases,
}
use native.Mathlib.Nat.{
  pow-suc, mod-lt, mod-eq_of_lt, add-mod-mod, add-mod_right, div-eq_of_lt, add-div_right,
  div-add-mod', div-lt_iff_lt-mul,
}
use vortex_go.Encoding.Word.{word}
use vortex_go.Base.Powers.{two_pow-pos, mod-word-mod}
use vortex_go.Pco.Words.{mask, flip, ordered_bits}

-- For a positive width, 2^w is twice 2^(w-1).
pub two_pow-pred : (w : ℕ) → 0 < w → 2 ^ w ≡ 2 ^ (w - 1) * 2
two_pow-pred w h =
    let e : w ≡ suc (w - 1) = omega arith in ap (λ (k : ℕ). 2 ^ k) e ∙ pow-suc 2 (w - 1)

pub flip-lt : (w x : ℕ) → 0 < w → x < 2 ^ w → flip w x < 2 ^ w
unfolding flip
flip-lt w x h lt =
    let m : ℕ = 2 ^ (w - 1) in
    let twice : 2 ^ w ≡ m * 2 = two_pow-pred w h in
    let pos : 0 < m = two_pow-pos (w - 1) in
    let top : x / m < 2 = (div-lt_iff_lt-mul pos).1 (omega arith) in
    let rest : x % m < m = mod-lt x pos in
    let whole : x / m * m + x % m ≡ x = div-add-mod' x m in
    elim (Bool-cases (x / m % 2 == 0)) [
      | inl low ↦
          let none_left : x / m ≡ 0 = ground arith in
          let e : x / m * m ≡ 0 = ap (λ (k : ℕ). k * m) none_left ∙ omega arith in
          rw low (omega arith)
      | inr high ↦ rw high (omega arith)
    ]

pub ordered_bits-lt : (w x : ℕ) → 0 < w → x < 2 ^ w → ordered_bits x w < 2 ^ w
unfolding ordered_bits
ordered_bits-lt w x h lt = elim (Bool-cases (x / 2 ^ (w - 1) % 2 == 0)) [
  | inl low ↦ rw low (omega arith)
  | inr high ↦ rw high (omega arith)
]

-- An exclusive or with one bit undoes itself.
pub flip-flip : (w x : ℕ) → 0 < w → x < 2 ^ w → flip w (flip w x) ≡ x
unfolding flip
flip-flip w x h lt =
    let m : ℕ = 2 ^ (w - 1) in
    let twice : 2 ^ w ≡ m * 2 = two_pow-pred w h in
    let pos : 0 < m = two_pow-pos (w - 1) in
    elim (dec_lt x m) [
      | yes small ↦
          let low : x / m ≡ 0 = div-eq_of_lt small in
          let high : (x + m) / m ≡ x / m + 1 = add-div_right x pos in
          let e : (x / m % 2 == 0) ≡ true = ground arith in
          let f : ((x + m) / m % 2 == 0) ≡ false = ground arith in rw (e, f) (omega arith)
      | no big ↦
          let back : x - m + m ≡ x = omega arith in
          let high : x / m ≡ (x - m) / m + 1 =
            ap (λ (k : ℕ). k / m) (sym back) ∙ add-div_right (x - m) pos in
          let low : (x - m) / m ≡ 0 = div-eq_of_lt (omega arith) in
          let e : (x / m % 2 == 0) ≡ false = ground arith in
          let f : ((x - m) / m % 2 == 0) ≡ true = ground arith in rw (e, f) (omega arith)
    ]

-- x behind y: the number that leads from y to x in the words of w bits.
abbrev pub minus : (w x y : ℕ) → ℕ
minus w x y = (x + 2 ^ w - y) % 2 ^ w

pub minus-lt : (w x y : ℕ) → minus w x y < 2 ^ w
minus-lt w x y = mod-lt (x + 2 ^ w - y) (two_pow-pos w)

-- Added to y it gives x, also where the sum wraps around first at 2^64.
pub add-minus : (w x y : ℕ) → w ≤ 64 → x < 2 ^ w → y < 2 ^ w → mask w ((y + minus w x y) % word) ≡ x
add-minus w x y h lx ly =
    mod-word-mod (y + minus w x y) w h
    ∙ add-mod-mod y (x + 2 ^ w - y) (2 ^ w)
    ∙ ap (λ (k : ℕ). k % 2 ^ w) whole
    ∙ add-mod_right x (2 ^ w)
    ∙ mod-eq_of_lt lx
  where
    whole : y + (x + 2 ^ w - y) ≡ x + 2 ^ w
    whole = omega arith
