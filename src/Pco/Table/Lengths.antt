-- ===== src/Pco/Table/Lengths.antt =====
-- `bits.Len64`, and the bits that an entry of the ANS table reads.
use vortex_go.Base.{
  ℕ, zero, suc, ◌+◌, ◌-◌, ◌*◌, ◌/◌, ◌^◌, ◌≤◌, ◌<◌, ◌≡◌, refl, sym, ap, ◌∙◌, inl, inr, ◌==◌, arith,
  dec_lt, Bool-cases,
}
use vortex_go.Base.Powers.{two_pow-pos, two_pow-add}
use native.Mathlib.Nat.{pow-suc, pow-le-pow_right, mul-le-mul_right, mul_assoc}
use vortex_go.Pco.Table.{Bin, AnsNode, bits_len, ans_node}

bits_len-zero : (k : ℕ) → bits_len k 0 ≡ 0
unfolding bits_len
bits_len-zero zero = refl
bits_len-zero (suc k) = refl

-- A number below 2^k has its length L with x < 2^L, and 2^L is no more than 2 x, or 1.
bits_len_bounds :
    (k x : ℕ) → x < 2 ^ k → (x < 2 ^ bits_len k x) × (2 ^ bits_len k x ≤ 2 * x + (1 - x))
unfolding bits_len
bits_len_bounds zero x h = (omega arith, omega arith)
bits_len_bounds (suc k) x h =
    let half : x / 2 < 2 ^ k = omega (arith, pow-suc 2 k) in
    let (over, under) = bits_len_bounds k (x / 2) half in
    let p : 2 ^ suc (bits_len k (x / 2)) ≡ 2 ^ bits_len k (x / 2) * 2 =
      pow-suc 2 (bits_len k (x / 2)) in
    elim (Bool-cases (x == 0)) [
      | inl none_left ↦ rw none_left (ground arith, ground arith)
      | inr more ↦
          let pos : 0 < x = ground arith in
          elim (Bool-cases (x / 2 == 0)) [
            | inl one ↦
                let none_left : x / 2 ≡ 0 = ground arith in
                let l : bits_len k (x / 2) ≡ 0 = ap (bits_len k) none_left ∙ bits_len-zero k in
                let q : 2 ^ suc (bits_len k (x / 2)) ≡ 2 = ap (λ (y : ℕ). 2 ^ suc y) l in
                rw more (omega arith, omega arith)
            | inr two ↦ let big : 0 < x / 2 = ground arith in rw more (omega arith, omega arith)
          ]
    ]

pow-lt-pow_right : (a b : ℕ) → a < b → 2 ^ a < 2 ^ b
pow-lt-pow_right a b h =
    let p : 2 ^ suc a ≡ 2 ^ a * 2 = pow-suc 2 a in
    let q : 2 ^ suc a ≤ 2 ^ b = pow-le-pow_right (omega arith) h in
    let pos : 0 < 2 ^ a = two_pow-pos a in omega arith

lt_of_two_pow : (a b : ℕ) → 2 ^ a < 2 ^ b → a < b
lt_of_two_pow a b h = elim (dec_lt a b) [
  | yes p ↦ p
  | no p ↦
      let q : b ≤ a = omega arith in
      let r : 2 ^ b ≤ 2 ^ a = pow-le-pow_right (omega arith) q in absurd (omega arith)
]

-- The length of a power of two.
bits_len-two_pow : (log : ℕ) → log < 64 → bits_len 64 (2 ^ log) ≡ suc log
bits_len-two_pow log h =
    let less : 2 ^ log < 2 ^ 64 = pow-lt-pow_right log 64 h in
    let (over, under) = bits_len_bounds 64 (2 ^ log) less in
    let pos : 0 < 2 ^ log = two_pow-pos log in
    let p : 2 ^ suc log ≡ 2 ^ log * 2 = pow-suc 2 log in
    let q : 2 ^ suc (suc log) ≡ 2 ^ suc log * 2 = pow-suc 2 (suc log) in
    let r : log < bits_len 64 (2 ^ log) = lt_of_two_pow log _ over in
    let s : bits_len 64 (2 ^ log) < suc (suc log) = lt_of_two_pow _ (suc (suc log)) (omega arith) in
    omega arith

-- What an entry must be: from every number that its bits can give, the next state is in the table.
abbrev pub StaysBelow : ℕ → AnsNode → Type 0
StaysBelow size a = a.next + 2 ^ a.read ≤ size

-- A slot whose count is from 1 to below twice the size: the two subtractions do not go below 0, and
-- the entry stays below the size.
pub ans_node-StaysBelow :
    (log next : ℕ) (b : Bin)
    → log < 63
    → 0 < next
    → next < 2 * 2 ^ log
    → (bits_len 64 next ≤ bits_len 64 (2 ^ log))
      × (2 ^ log ≤ next * 2 ^ (bits_len 64 (2 ^ log) - bits_len 64 next))
      × StaysBelow (2 ^ log) (ans_node (2 ^ log) next b)
unfolding ans_node
ans_node-StaysBelow log next b h pos lt =
    let len : ℕ = bits_len 64 next in
    let nb : ℕ = suc log - len in
    let full : bits_len 64 (2 ^ log) ≡ suc log = bits_len-two_pow log (omega arith) in
    let p : 2 ^ suc log ≡ 2 ^ log * 2 = pow-suc 2 log in
    let small : 2 ^ suc log < 2 ^ 64 = pow-lt-pow_right (suc log) 64 (omega arith) in
    let (over, under) = bits_len_bounds 64 next (omega arith) in
    let q : 2 ^ suc (suc log) ≡ 2 ^ suc log * 2 = pow-suc 2 (suc log) in
    let le : len < suc (suc log) = lt_of_two_pow len (suc (suc log)) (omega arith) in
    let e : len + nb ≡ suc log = omega arith in
    let whole : 2 ^ len * 2 ^ nb ≡ 2 * 2 ^ log =
      sym (two_pow-add len nb) ∙ ap (λ (k : ℕ). 2 ^ k) e ∙ omega arith in
    let up : (next + 1) * 2 ^ nb ≤ 2 ^ len * 2 ^ nb = mul-le-mul_right (2 ^ nb) (omega arith) in
    let down : 2 ^ len * 2 ^ nb ≤ 2 * next * 2 ^ nb = mul-le-mul_right (2 ^ nb) (omega arith) in
    let split : (next + 1) * 2 ^ nb ≡ next * 2 ^ nb + 2 ^ nb = omega arith in
    let twice : 2 * next * 2 ^ nb ≡ 2 * (next * 2 ^ nb) = mul_assoc 2 next (2 ^ nb) in
    rw full (omega arith, omega arith, omega arith)
