-- ===== src/Base/Powers.antt =====
-- Laws of the powers of two, of halves and of remainders by a power.
use Prim.Native.Nat.{ℕ, zero, suc, ◌+◌, ◌-◌, ◌*◌, ◌/◌, ◌%◌, ◌^◌, ◌≤◌, ◌<◌}
use mathlib.Core.Path.{◌≡◌, sym, ap, ◌∙◌}
use native.Mathlib.Omega.{arith}
use native.Mathlib.Nat.{
  add-zero, add-suc, mul-one, pow-suc, one-le-pow, mod-lt, mod-eq_of_lt, div-add-mod',
  add-mul-mod_self_right, mod-mod_of_dvd, mul-mod_left, mul_assoc, dvd_iff_mod-eq-zero,
}

pub two_pow-pos : (k : ℕ) → 0 < 2 ^ k
two_pow-pos k = one-le-pow k 2 (omega arith)

pub two_pow-add : (a b : ℕ) → 2 ^ (a + b) ≡ 2 ^ a * 2 ^ b
two_pow-add a zero = ap (λ (k : ℕ). 2 ^ k) (add-zero a) ∙ sym (mul-one (2 ^ a))
two_pow-add a (suc b) =
    let e : 2 ^ (a + suc b) ≡ 2 ^ (a + b) * 2 =
      ap (λ (k : ℕ). 2 ^ k) (add-suc a b) ∙ pow-suc 2 (a + b) in
    let f : 2 ^ suc b ≡ 2 ^ b * 2 = pow-suc 2 b in
    let g : 2 ^ (a + b) * 2 ≡ 2 ^ a * 2 ^ b * 2 = ap (λ (t : ℕ). t * 2) (two_pow-add a b) in
    e ∙ g ∙ mul_assoc (2 ^ a) (2 ^ b) 2 ∙ sym (ap (λ (t : ℕ). 2 ^ a * t) f)

-- The remainder of a number by 2^(t+1), from that of its half.
pub mod-two_pow-suc : (y t : ℕ) → y % 2 ^ suc t ≡ y % 2 + 2 * (y / 2 % 2 ^ t)
mod-two_pow-suc y t =
    let m : ℕ = 2 ^ t in
    let h : ℕ = y / 2 in
    let r : h % m < m = mod-lt h (two_pow-pos t) in
    let d : h / m * m + h % m ≡ h = div-add-mod' h m in
    let e : 2 ^ suc t ≡ m * 2 = pow-suc 2 t in
    let f : h / m * (m * 2) ≡ h / m * m * 2 = sym (mul_assoc (h / m) m 2) in
    let whole : y ≡ y % 2 + 2 * (h % m) + h / m * (m * 2) = omega arith in
    ap (λ (k : ℕ). y % k) e
    ∙ ap (λ (k : ℕ). k % (m * 2)) whole
    ∙ add-mul-mod_self_right (y % 2 + 2 * (h % m)) (h / m) (m * 2)
    ∙ mod-eq_of_lt (omega arith)

-- A remainder by 2^64 does not change the one by a smaller power.
pub mod-word-mod : (x w : ℕ) → w ≤ 64 → x % 2 ^ 64 % 2 ^ w ≡ x % 2 ^ w
mod-word-mod x w h =
    let e : 2 ^ (64 - w + w) ≡ 2 ^ (64 - w) * 2 ^ w = two_pow-add (64 - w) w in
    let f : 64 - w + w ≡ 64 = omega arith in
    let g : 2 ^ 64 ≡ 2 ^ (64 - w) * 2 ^ w = ap (λ (k : ℕ). 2 ^ k) (sym f) ∙ e in
    mod-mod_of_dvd (2 ^ w) x (
      (dvd_iff_mod-eq-zero (2 ^ w)).1
        (ap (λ (k : ℕ). k % 2 ^ w) g ∙ mul-mod_left (2 ^ (64 - w)) (2 ^ w)))
