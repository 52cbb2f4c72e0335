-- ===== src/Encoding/Numeric/Sequence/Exact.antt =====
-- The elements of a sequence are exact: the check of the last one rules out wrap-around in all of them.
use vortex_go.Base.{
  length, ℕ, zero, suc, ◌+◌, ◌-◌, ◌*◌, ◌/◌, ◌%◌, ◌^◌, ◌<◌, ◌≡◌, refl, sym, ap, ◌∙◌, ◌⊎◌, inl, inr,
  Bool, true, false, some, List, get_elem?, arith, if◌then◌else◌,
}
use native.Mathlib.Nat.{zero-add, div-add-mod', add-mul, mul_comm, mul-le-mul_left}
use vortex_go.Base.Int.{ℤ, pos, negsuc, pos_part, neg_part, sub_ℕ, ◌+ℤ◌, ◌*ℤ◌}
use vortex_go.Outcome.{Error, ok, err, ok-injective}
use vortex_go.Schema.{Kind, is_integer, is_signed, width}
use vortex_go.Encoding.Word.{word, low_bits, as_signed}
use vortex_go.Encoding.Numeric.Sequence.{
  as_integer, out_of_range, last_element, sequence_bits, sequence_values,
}
use vortex_go.Encoding.Numeric.Sequence.Moves.{Width, exact, width1, width2, width4, width8}

-- A multiple of the step, as a move up or down.
step_times : (b : ℤ) (i : ℕ) → b *ℤ pos i ≡ sub_ℕ (pos_part b * i) (neg_part b * i)
unfolding ◌*ℤ◌
step_times b i =
    let x : pos_part b * i + neg_part b * 0 ≡ pos_part b * i = omega arith in
    let y : pos_part b * 0 + neg_part b * i ≡ neg_part b * i = omega arith in
    ap (λ (k : ℕ). sub_ℕ k (pos_part b * 0 + neg_part b * i)) x
    ∙ ap (λ (k : ℕ). sub_ℕ (pos_part b * i) k) y

-- The remainder that the code adds is the move, modulo the word.
residue :
    (signed : Bool) (step i : ℕ)
    → step < word
    → (more : ℕ) × (i * step % word
          + neg_part (as_integer signed step 8) * i
          + i * step / word * word
        ≡ pos_part (as_integer signed step 8) * i + more * word)
unfolding as_integer
residue false step i h =
    let e = div-add-mod' (i * step) word in
    let c : step * i ≡ i * step = mul_comm step i in (0, omega arith)
residue true step i h =
    let e = div-add-mod' (i * step) word in
    let c : step * i ≡ i * step = mul_comm step i in
    elim (width8.signs step h) [
      | inl (lt, p, n) ↦
          let up = ap (λ (k : ℕ). k * i) p in let down = ap (λ (k : ℕ). k * i) n in (0, omega arith)
      | inr (ge, p, n) ↦
          let up = ap (λ (k : ℕ). k * i) p in
          let both = add-mul (neg_part (as_signed step 8)) step i in
          let down = ap (λ (k : ℕ). k * i) n in (i, omega arith)
    ]

get-sequence_bits :
    (n i base step w j : ℕ)
    → j < n
    → get_elem? (sequence_bits n i base step w) j
      ≡ some (low_bits ((base + (i + j) * step % word) % word) (w * 8))
unfolding sequence_bits
get-sequence_bits zero i base step w j h = absurd (omega arith)
get-sequence_bits (suc n) i base step w zero h =
    ap (λ (k : ℕ). some (low_bits ((base + k * step % word) % word) (w * 8))) (omega arith)
get-sequence_bits (suc n) i base step w (suc j) h =
    get-sequence_bits n (i + 1) base step w j (omega arith)
    ∙ ap (λ (k : ℕ). some (low_bits ((base + k * step % word) % word) (w * 8))) (omega arith)

one_sided : (b : ℤ) (m : ℕ) → (pos_part b * m ≡ 0) ⊎ (neg_part b * m ≡ 0)
one_sided (pos n) m = inr (omega arith)
one_sided (negsuc n) m = inl (omega arith)

-- The value of element i, in exact arithmetic.
abbrev pub element : Bool → (w base step : ℕ) → Bool → (i : ℕ) → ℤ
element signed w base step step_signed i =
    as_integer signed base w +ℤ as_integer step_signed step 8 *ℤ pos i

element-exact :
    (signed : Bool) (w base step : ℕ) (step_signed : Bool) (n i : ℕ)
    → Width w
    → base < 2 ^ (w * 8)
    → step < word
    → i < n
    → out_of_range signed w (element signed w base step step_signed (n - 1)) ≡ false
    → as_integer signed (low_bits ((base + i * step % word) % word) (w * 8)) w
      ≡ element signed w base step step_signed i
element-exact signed w base step step_signed n i width fits h lt inside =
    let b : ℤ = as_integer step_signed step 8 in
    let (more, res) = residue step_signed step i h in
    let last = ap (λ (z : ℤ). as_integer signed base w +ℤ z) (step_times b (n - 1)) in
    exact signed w base (i * step % word) (pos_part b * i) (neg_part b * i) (pos_part b * (n - 1))
      (neg_part b * (n - 1)) more (i * step / word) width fits
      (mul-le-mul_left (pos_part b) (omega arith)) (mul-le-mul_left (neg_part b) (omega arith))
      (one_sided b (n - 1)) res (ap (out_of_range signed w) (sym last) ∙ inside)
    ∙ ap (λ (z : ℤ). as_integer signed base w +ℤ z) (sym (step_times b i))

width_of : (k : Kind) → is_integer k ≡ true → Width (width k)
width_of Kind.u8 h = width1
width_of Kind.u16 h = width2
width_of Kind.u32 h = width4
width_of Kind.u64 h = width8
width_of Kind.i8 h = width1
width_of Kind.i16 h = width2
width_of Kind.i32 h = width4
width_of Kind.i64 h = width8
width_of Kind.null h = cc
width_of Kind.bool h = cc
width_of Kind.f16 h = cc
width_of Kind.f32 h = cc
width_of Kind.f64 h = cc
width_of Kind.utf8 h = cc
width_of Kind.binary h = cc
width_of Kind.decimal h = cc
width_of Kind.struct h = cc
width_of Kind.list h = cc
width_of Kind.fixed_size_list h = cc
width_of Kind.extension h = cc

length-sequence_bits : (n i base step w : ℕ) → length (sequence_bits n i base step w) ≡ n
unfolding sequence_bits
length-sequence_bits zero i base step w = refl
length-sequence_bits (suc n) i base step w = ap suc (length-sequence_bits n (i + 1) base step w)

passed :
    (b : Bool) (c : Error) (xs ys : List ℕ)
    → (if b then err c else ok xs) ≡ ok ys
    → (b ≡ false) × (xs ≡ ys)
passed true c xs ys h = cc
passed false c xs ys h = (refl, ok-injective h)

-- If a sequence of n elements of an integer type is decoded, where the bits of the first element fit in
-- the type's width and those of the step in a word, then it has n elements, and each of them, read as a
-- number of the type, is base + i * step in exact arithmetic: none of them wraps around.
pub sequence_values_lem :
    (k : Kind) (base step : ℕ) (step_signed : Bool) (n i : ℕ) (bits : List ℕ)
    → is_integer k ≡ true
    → base < 2 ^ (width k * 8)
    → step < word
    → i < n
    → sequence_values (is_signed k) (width k) base step step_signed n ≡ ok bits
    → (length bits ≡ n)
      × (x : ℕ) × (get_elem? bits i ≡ some x)
      × (as_integer (is_signed k) x (width k)
          ≡ as_integer (is_signed k) base (width k) +ℤ as_integer step_signed step 8 *ℤ pos i)
unfolding sequence_values last_element
sequence_values_lem k base step step_signed n i bits integer fits h lt e =
    let all : List ℕ = sequence_bits n 0 base step (width k) in
    let (inside, made) = passed _ _ all bits e in
    let x : ℕ = low_bits ((base + i * step % word) % word) (width k * 8) in
    let here : get_elem? all i ≡ some x =
      get-sequence_bits n 0 base step (width k) i lt
      ∙ ap (λ (j : ℕ). some (low_bits ((base + j * step % word) % word) (width k * 8)))
          (zero-add i) in
    (
      ap length (sym made) ∙ length-sequence_bits n 0 base step (width k),
      x,
      ap (λ (xs : List ℕ). get_elem? xs i) (sym made) ∙ here,
      element-exact (is_signed k) (width k) base step step_signed n i (width_of k integer) fits h lt
          inside,
    )
