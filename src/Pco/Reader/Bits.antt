-- ===== src/Pco/Reader/Bits.antt =====
-- The bits of a buffer, as the loop of `reader.read` finds them.
use vortex_go.Base.{
  ℕ, zero, suc, ◌+◌, ◌-◌, ◌*◌, ◌/◌, ◌%◌, ◌^◌, ◌≤◌, ◌<◌, min, ◌≡◌, sym, ap, ◌∙◌, inl, inr, List, [],
  ◌∷◌, get_or, ltb, arith, Bool-cases,
}
use vortex_go.Base.Powers.{two_pow-add, mod-two_pow-suc}
use native.Mathlib.Nat.{
  zero-add, add-zero, suc-add, pow-suc, div-div-eq-div-mul, mod-one, mul_assoc,
}
use vortex_go.Pco.Reader.{read_loop}

-- Bit i of the buffer, the lowest bit of a byte first.
abbrev pub bit : List ℕ → ℕ → ℕ
bit b i = get_or b (i / 8) 0 / 2 ^ (i % 8) % 2

-- The n bits from `pos` on.
abbrev pub bits_from : List ℕ → (n pos : ℕ) → List ℕ
bits_from b zero pos = []
bits_from b (suc n) pos = bit b pos ∷ bits_from b n (pos + 1)

-- The number that some bits stand for, the lowest one first.
abbrev pub value : List ℕ → ℕ
value [] = 0
value (x ∷ xs) = x + 2 * value xs

-- The number of the bits from `pos` on.
abbrev pub value_from : List ℕ → (n pos : ℕ) → ℕ
value_from b n pos = value (bits_from b n pos)

value_from-add :
    (b : List ℕ) (m n pos : ℕ)
    → value_from b (m + n) pos ≡ value_from b m pos + value_from b n (pos + m) * 2 ^ m
value_from-add b zero n pos = rw (zero-add, add-zero) (omega arith)
value_from-add b (suc m) n pos =
    let rest : ℕ = value_from b n (pos + 1 + m) in
    let p : 2 ^ suc m ≡ 2 ^ m * 2 = pow-suc 2 m in
    let e : pos + suc m ≡ pos + 1 + m = omega arith in
    let f : rest * 2 ^ suc m ≡ rest * 2 ^ m * 2 =
      ap (λ (t : ℕ). rest * t) p ∙ sym (mul_assoc rest (2 ^ m) 2) in
    rw (suc-add, e) (omega (arith, value_from-add b m n (pos + 1), f))

-- Bits from within one byte.
byte_part :
    (b : List ℕ) (t q s : ℕ) → s + t ≤ 8 → get_or b q 0 / 2 ^ s % 2 ^ t ≡ value_from b t (q * 8 + s)
byte_part b zero q s h = mod-one (get_or b q 0 / 2 ^ s)
byte_part b (suc t) q s h =
    let here : (q * 8 + s) / 8 ≡ q = omega arith in
    let low : (q * 8 + s) % 8 ≡ s = omega arith in
    let next : q * 8 + s + 1 ≡ q * 8 + suc s = omega arith in
    let half : get_or b q 0 / 2 ^ s / 2 ≡ get_or b q 0 / 2 ^ suc s =
      div-div-eq-div-mul (get_or b q 0) (2 ^ s) 2
      ∙ ap (λ (k : ℕ). get_or b q 0 / k) (sym (pow-suc 2 s)) in
    rw (here, low, next)
      (mod-two_pow-suc (get_or b q 0 / 2 ^ s) t
        ∙ ap (λ (y : ℕ). get_or b q 0 / 2 ^ s % 2 + 2 * (y % 2 ^ t)) half
        ∙ ap (λ (y : ℕ). get_or b q 0 / 2 ^ s % 2 + 2 * y) (byte_part b t q (suc s) (omega arith)))

join_parts : (x p r t d : ℕ) → x + p * d + r * (d * t) ≡ x + (p + r * t) * d
join_parts x p r t d = grind arith

pair_eq : {A B : Type 0} {a c : A} {b d : B} → a ≡ c → b ≡ d → ◌≡◌ {A = A × B} (a, b) (c, d)
pair_eq e f = λ i. (e i, f i)

-- One round: what it takes, and what the rest of the loop adds.
round_eq :
    (b : List ℕ) (pos done n took : ℕ) (x : ℕ)
    → took ≤ 8 - pos % 8
    → took ≤ n - done
    → ◌≡◌ {A = ℕ × ℕ}
        (
          x
              + get_or b (pos / 8) 0 / 2 ^ (pos % 8) % 2 ^ took * 2 ^ done
              + value_from b (n - (done + took)) (pos + took) * 2 ^ (done + took),
          pos + took + (n - (done + took)),
        )
        (x + value_from b (n - done) pos * 2 ^ done, pos + (n - done))
round_eq b pos done n took x h f =
    let left : ℕ = n - (done + took) in
    let whole : n - done ≡ took + left = omega arith in
    let place : pos / 8 * 8 + pos % 8 ≡ pos = omega arith in
    let part : get_or b (pos / 8) 0 / 2 ^ (pos % 8) % 2 ^ took ≡ value_from b took pos =
      byte_part b took (pos / 8) (pos % 8) (omega arith) ∙ ap (value_from b took) place in
    pair_eq
      (rw (whole, part, two_pow-add done took, value_from-add b took left pos)
        (join_parts x (value_from b took pos) (value_from b left (pos + took)) (2 ^ took)
          (2 ^ done)))
      (omega arith)

-- The loop adds the bits that are left to those that it has.
pub read_loop_lem :
    (k : ℕ) (b : List ℕ) (pos done n x : ℕ)
    → done ≤ n
    → n ≤ done + k
    → read_loop k b pos done n x ≡ (x + value_from b (n - done) pos * 2 ^ done, pos + (n - done))
unfolding read_loop
read_loop_lem zero b pos done n x h f =
    let e : n - done ≡ 0 = omega arith in rw e (pair_eq (omega arith) (omega arith))
read_loop_lem (suc k) b pos done n x h f = elim (Bool-cases (ltb done n)) [
  | inl more ↦
      let lt : done < n = ground arith in
      let took : ℕ = min (n - done) (8 - pos % 8) in
      rw more (
        read_loop_lem k b (pos + took) (done + took) n _ (omega arith) (omega arith)
        ∙ round_eq b pos done n took x (omega arith) (omega arith))
  | inr over ↦
      let e : n - done ≡ 0 = ground arith in rw (over, e) (pair_eq (omega arith) (omega arith))
]
