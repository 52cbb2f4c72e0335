-- ===== src/Pco/Table/Slots.antt =====
-- The spreading of the symbols over the ANS table: every step has a slot of its own.
use vortex_go.Base.{
  ℕ, zero, suc, ◌+◌, ◌-◌, ◌*◌, ◌/◌, ◌%◌, ◌^◌, ◌≤◌, ◌<◌, ◌≡◌, refl, sym, ap, ◌∙◌, ◌≢◌, ◌⊎◌, inl, inr,
  some, List, [], ◌∷◌, set, replicate, get_elem?, length, length-set, length-replicate, ltb, ◌==◌,
  if◌then◌else◌, arith, dec_lt, ℕ_discrete, Bool-cases,
}
use vortex_go.Base.Powers.{two_pow-pos}
use native.Mathlib.Nat.{
  pow-suc, mod-lt, div-add-mod', mul_assoc, mul_comm, zero-add, add-mul, mul-le-mul_right,
}
use vortex_go.Pco.Table.{Bin, sum_weights, stride, place, spread}

-- The symbol of step t, where the first bin has symbol s: as many steps as its weight, then the next.
abbrev pub symbol_at : List Bin → (s t : ℕ) → ℕ
symbol_at [] s t = s
symbol_at (b ∷ bins) s t = if ltb t b.weight then s else symbol_at bins (s + 1) (t - b.weight)

get-set_self : (xs : List ℕ) (i v : ℕ) → i < length xs → get_elem? (set xs i v) i ≡ some v
get-set_self [] i v h = absurd (omega arith)
get-set_self (x ∷ xs) zero v h = refl
get-set_self (x ∷ xs) (suc i) v h = get-set_self xs i v (omega arith)

get-set_ne : (xs : List ℕ) (i j v : ℕ) → i ≢ j → get_elem? (set xs i v) j ≡ get_elem? xs j
get-set_ne [] i j v h = refl
get-set_ne (x ∷ xs) zero zero v h = absurd (h refl)
get-set_ne (x ∷ xs) zero (suc j) v h = refl
get-set_ne (x ∷ xs) (suc i) zero v h = refl
get-set_ne (x ∷ xs) (suc i) (suc j) v h = get-set_ne xs i j v (λ e. h (ap suc e))

odd-open : (j d : ℕ) → (2 * j + 1) * d ≡ 2 * (j * d) + d
odd-open j d = add-mul (2 * j) 1 d ∙ omega (arith, mul_assoc 2 j d)

-- An odd factor of a multiple of 2^L is no help: the other factor is a multiple.
odd_factor : (L j d q : ℕ) → (2 * j + 1) * d ≡ q * 2 ^ L → (p : ℕ) × (d ≡ p * 2 ^ L)
odd_factor zero j d q h = (d, omega arith)
odd_factor (suc L) j d q h =
    let m : ℕ = 2 ^ L in
    let twice : q * 2 ^ suc L ≡ 2 * (q * m) =
      ap (λ (k : ℕ). q * k) (pow-suc 2 L) ∙ sym (mul_assoc q m 2) ∙ mul_comm (q * m) 2 in
    let open_up : (2 * j + 1) * d ≡ 2 * (j * d) + d = odd-open j d in
    let even : d ≡ d / 2 * 2 = omega arith in
    let again : j * d ≡ j * (d / 2) * 2 =
      ap (λ (k : ℕ). j * k) even ∙ sym (mul_assoc j (d / 2) 2) in
    let open_half : (2 * j + 1) * (d / 2) ≡ 2 * (j * (d / 2)) + d / 2 = odd-open j (d / 2) in
    let half : (2 * j + 1) * (d / 2) ≡ q * m = omega arith in
    let (p, e) = odd_factor L j (d / 2) q half in
    let whole : p * 2 ^ suc L ≡ p * m * 2 =
      ap (λ (k : ℕ). p * k) (pow-suc 2 L) ∙ sym (mul_assoc p m 2) in
    (p, omega arith)

-- The slot that a step gives.
abbrev pub slot : (log t : ℕ) → ℕ
slot log t = t * stride (2 ^ log) % 2 ^ log

stride-odd : (size : ℕ) → (j : ℕ) × (stride size ≡ 2 * j + 1)
unfolding stride
stride-odd size = (3 * size / 5 / 2, ground arith)

-- Two numbers of one remainder differ by a multiple.
multiple_of_mod : (a b m : ℕ) → a ≤ b → a % m ≡ b % m → (q : ℕ) × (b ≡ q * m + a)
multiple_of_mod a b m le e = elim (dec_lt (b / m) (a / m)) [
  | yes p ↦
      let g : b / m * m ≤ a / m * m = mul-le-mul_right m (omega arith) in
      let h : a / m * m + a % m ≡ a = div-add-mod' a m in
      let k : b / m * m + b % m ≡ b = div-add-mod' b m in (0, omega arith)
  | no p ↦
      let q : ℕ = b / m - a / m in
      let f : (q + a / m) * m ≡ q * m + a / m * m = add-mul q (a / m) m in
      let g : (q + a / m) * m ≡ b / m * m = ap (λ (k : ℕ). k * m) (omega arith) in
      let h : a / m * m + a % m ≡ a = div-add-mod' a m in
      let k : b / m * m + b % m ≡ b = div-add-mod' b m in (q, omega arith)
]

-- Two steps below the size have different slots.
slot-ne : (log t u : ℕ) → t < u → u < 2 ^ log → slot log t ≢ slot log u
slot-ne log t u lt le e =
    let size : ℕ = 2 ^ log in
    let k : ℕ = stride size in
    let (j, odd) = stride-odd size in
    let d : ℕ = u - t in
    let c : d * k + t * k ≡ u * k = sym (add-mul d t k) ∙ ap (λ (x : ℕ). x * k) (omega arith) in
    let (q, f) = multiple_of_mod (t * k) (u * k) size (omega arith) e in
    let g : (2 * j + 1) * d ≡ q * size =
      ap (λ (x : ℕ). x * d) (sym odd) ∙ mul_comm k d ∙ omega arith in
    let (p, whole) = odd_factor log j d q g in
    elim (Bool-cases (p == 0)) [
      | inl z ↦
          let w : p * size ≡ 0 * size = ap (λ (x : ℕ). x * size) (ground arith) in
          absurd (omega arith)
      | inr z ↦
          let w : 1 * size ≤ p * size = mul-le-mul_right size (ground arith) in absurd (omega arith)
    ]

length-place : (left s step size : ℕ) (xs : List ℕ) → length (place left s step size xs) ≡ length xs
unfolding place
length-place zero s step size xs = refl
length-place (suc k) s step size xs = length-place k s (step + 1) size _ ∙ length-set xs _ s

-- What a slot of a later or an earlier step holds is left as it is.
get-place_ne :
    (log left s step : ℕ) (xs : List ℕ) (t : ℕ)
    → t < 2 ^ log
    → step + left ≤ 2 ^ log
    → (t < step) ⊎ (step + left ≤ t)
    → get_elem? (place left s step (2 ^ log) xs) (slot log t) ≡ get_elem? xs (slot log t)
unfolding place
get-place_ne log zero s step xs t h le out = refl
get-place_ne log (suc k) s step xs t h le out =
    get-place_ne log k s (step + 1) _ t h (omega arith) (ground arith)
    ∙ get-set_ne xs (slot log step) (slot log t) s (λ e. elim out [
      | inl before ↦ slot-ne log t step before (omega arith) (sym e)
      | inr behind ↦ slot-ne log step t (omega arith) h e
    ])

slot-lt : (log t : ℕ) (xs : List ℕ) → length xs ≡ 2 ^ log → slot log t < length xs
slot-lt log t xs l = let lt : slot log t < 2 ^ log = mod-lt _ (two_pow-pos log) in omega arith

get-place :
    (log left s step : ℕ) (xs : List ℕ) (t : ℕ)
    → length xs ≡ 2 ^ log
    → step ≤ t
    → t < step + left
    → step + left ≤ 2 ^ log
    → get_elem? (place left s step (2 ^ log) xs) (slot log t) ≡ some s
unfolding place
get-place log zero s step xs t l ge lt le = absurd (omega arith)
get-place log (suc k) s step xs t l ge lt le = elim (ℕ_discrete step t) [
  | yes same ↦
      get-place_ne log k s (step + 1) _ t (omega arith) (omega arith) (inl (omega arith))
      ∙ ap (λ (x : ℕ). get_elem? (set xs (slot log step) s) (slot log x)) (sym same)
      ∙ get-set_self xs (slot log step) s (slot-lt log step xs l)
  | no differ ↦
      get-place log k s (step + 1) _ t (length-set xs _ s ∙ l) (ground arith) (omega arith)
        (omega arith)
]

get-spread_before :
    (log : ℕ) (bins : List Bin) (s step : ℕ) (xs : List ℕ) (t : ℕ)
    → t < step
    → step + sum_weights bins ≤ 2 ^ log
    → step ≤ 2 ^ log
    → get_elem? (spread bins s step (2 ^ log) xs) (slot log t) ≡ get_elem? xs (slot log t)
unfolding spread sum_weights
get-spread_before log [] s step xs t lt le in_table = refl
get-spread_before log (b ∷ bins) s step xs t lt le in_table =
    get-spread_before log bins (s + 1) (step + b.weight) _ t (omega arith) (omega arith)
      (omega arith)
    ∙ get-place_ne log b.weight s step xs t (omega arith) (omega arith) (inl lt)

get-spread :
    (log : ℕ) (bins : List Bin) (s step : ℕ) (xs : List ℕ) (t : ℕ)
    → length xs ≡ 2 ^ log
    → t < sum_weights bins
    → step + sum_weights bins ≤ 2 ^ log
    → get_elem? (spread bins s step (2 ^ log) xs) (slot log (step + t)) ≡ some (symbol_at bins s t)
unfolding spread sum_weights
get-spread log [] s step xs t l lt le = absurd (omega arith)
get-spread log (b ∷ bins) s step xs t l lt le = elim (dec_lt t b.weight) [
  | yes mine ↦
      get-spread_before log bins (s + 1) (step + b.weight) _ (step + t) (omega arith) (omega arith)
        (omega arith)
      ∙ get-place log b.weight s step xs (step + t) l (omega arith) (omega arith) (omega arith)
      ∙ ap some (sym (ground arith))
  | no other ↦
      ap
        (λ (x : ℕ).
          get_elem?
            (spread bins (s + 1) (step + b.weight) (2 ^ log) (place b.weight s step (2 ^ log) xs))
            (slot log x))
        (omega arith)
      ∙ get-spread log bins (s + 1) (step + b.weight) (place b.weight s step (2 ^ log) xs)
          (t - b.weight) (length-place b.weight s step (2 ^ log) xs ∙ l) (omega arith) (omega arith)
      ∙ ap some (sym (ground arith))
]

-- The symbols of the table of size 2^log.
abbrev pub symbols : (log : ℕ) → List Bin → List ℕ
symbols log bins = spread bins 0 0 (2 ^ log) (replicate (2 ^ log) 0)

get-symbols :
    (log : ℕ) (bins : List Bin) (t : ℕ)
    → sum_weights bins ≡ 2 ^ log
    → t < 2 ^ log
    → get_elem? (symbols log bins) (slot log t) ≡ some (symbol_at bins 0 t)
get-symbols log bins t sum lt =
    ap (λ (x : ℕ). get_elem? (symbols log bins) (slot log x)) (sym (zero-add t))
    ∙ get-spread log bins 0 0 _ t (length-replicate (2 ^ log) 0) (omega arith) (omega arith)

-- Where the weights of the bins sum to the size 2^log of the table, two steps below the size have
-- different slots, and in the table that the spreading gives each slot holds its step's symbol: the first
-- symbol for as many steps as its weight, then the second, and so on.
pub spread_lem :
    (log : ℕ) (bins : List Bin) (t u : ℕ)
    → sum_weights bins ≡ 2 ^ log
    → t < u
    → u < 2 ^ log
    → (slot log t ≢ slot log u)
      × (get_elem? (symbols log bins) (slot log t) ≡ some (symbol_at bins 0 t))
      × (get_elem? (symbols log bins) (slot log u) ≡ some (symbol_at bins 0 u))
spread_lem log bins t u sum lt le =
    (slot-ne log t u lt le, get-symbols log bins t sum (omega arith), get-symbols log bins u sum le)
