-- ===== src/Pco/Restore/Consecutive.antt =====
-- Consecutive deltas of any order: `restore` undoes the differences.
use vortex_go.Base.{
  ℕ, zero, suc, ◌+◌, ◌-◌, ◌%◌, ◌^◌, ◌≤◌, ◌<◌, ◌≡◌, refl, sym, ap, ◌∙◌, subst, Bool, List, [], ◌∷◌,
  All, map, length, arith,
}
use vortex_go.Outcome.{ok}
use vortex_go.Encoding.Word.{word}
use vortex_go.Pco.Words.{mask, flip}
use vortex_go.Pco.Words.Bounds.{flip-flip, minus, minus-lt, add-minus}
use vortex_go.Pco.Mode.{consecutive}
use vortex_go.Pco.Restore.{integrate, integrate_all, copied, restore}
use vortex_go.Pco.Restore.Lengths.{length-integrate_all, length-copied}
use vortex_go.Pco.Lists.{length-map}

-- The differences between neighbours.
abbrev pub differences : (w : ℕ) → List ℕ → List ℕ
differences w [] = []
differences w (x ∷ []) = []
differences w (x ∷ y ∷ xs) = minus w y x ∷ differences w (y ∷ xs)

abbrev first : List ℕ → ℕ
first [] = 0
first (x ∷ xs) = x

-- The first values of the differences of each order below k, and the differences of order k.
abbrev pub moments : (w k : ℕ) → List ℕ → List ℕ
moments w zero xs = []
moments w (suc k) xs = first xs ∷ moments w k (differences w xs)

abbrev pub deltas : (w k : ℕ) → List ℕ → List ℕ
deltas w zero xs = xs
deltas w (suc k) xs = deltas w k (differences w xs)

abbrev Prefix : List ℕ → List ℕ → Type 0
Prefix [] ys = Unit {0}
Prefix (x ∷ xs) [] = ⊥
Prefix (x ∷ xs) (y ∷ ys) = (x ≡ y) × Prefix xs ys

Prefix-eq : (xs ys : List ℕ) → Prefix xs ys → length xs ≡ length ys → ys ≡ xs
Prefix-eq [] [] h e = refl
Prefix-eq [] (y ∷ ys) h e = absurd (omega arith)
Prefix-eq (x ∷ xs) [] h e = absurd h
Prefix-eq (x ∷ xs) (y ∷ ys) (p, h) e =
    let rest = Prefix-eq xs ys h (omega arith) in λ i. sym p i ∷ rest i

length-differences : (w : ℕ) (xs : List ℕ) → length (differences w xs) ≡ length xs - 1
length-differences w [] = omega arith
length-differences w (x ∷ []) = omega arith
length-differences w (x ∷ y ∷ xs) = omega (arith, length-differences w (y ∷ xs))

All-differences : (w : ℕ) (xs : List ℕ) → All (λ x. x < 2 ^ w) (differences w xs)
All-differences w [] = tt
All-differences w (x ∷ []) = tt
All-differences w (x ∷ y ∷ xs) = (minus-lt w y x, All-differences w (y ∷ xs))

-- One level: a list that begins with the differences is summed up to one that begins with the values.
integrate-Prefix :
    (w : ℕ) (xs out : List ℕ)
    → w ≤ 64
    → All (λ x. x < 2 ^ w) xs
    → Prefix (differences w xs) out
    → length xs ≤ length out
    → Prefix xs (integrate w (first xs) out)
unfolding integrate
integrate-Prefix w [] out h all p le = tt
integrate-Prefix w (x ∷ []) [] h all p le = absurd (omega arith)
integrate-Prefix w (x ∷ []) (d ∷ out) h all p le = (refl, tt)
integrate-Prefix w (x ∷ y ∷ xs) [] h all p le = absurd (omega arith)
integrate-Prefix w (x ∷ y ∷ xs) (d ∷ out) h (lx, (ly, all)) (e, p) le =
    let step : mask w ((x + d) % word) ≡ y =
      ap (λ (k : ℕ). mask w ((x + k) % word)) (sym e) ∙ add-minus w y x h ly lx in
    (
      refl,
      subst (λ m. Prefix (y ∷ xs) (integrate w m out)) (sym step)
          (integrate-Prefix w (y ∷ xs) out h (ly, all) p (omega arith)),
    )

integrate_all-Prefix :
    (w k : ℕ) (xs out : List ℕ)
    → w ≤ 64
    → All (λ x. x < 2 ^ w) xs
    → Prefix (deltas w k xs) out
    → length xs ≤ length out
    → Prefix xs (integrate_all w (moments w k xs) out)
unfolding integrate_all
integrate_all-Prefix w zero xs out h all p le = p
integrate_all-Prefix w (suc k) xs out h all p le =
    let inner = integrate_all w (moments w k (differences w xs)) out in
    let same : length inner ≡ length out =
      length-integrate_all w (moments w k (differences w xs)) out in
    integrate-Prefix w xs inner h all
      (integrate_all-Prefix w k (differences w xs) out h (All-differences w xs) p
        (omega (arith, length-differences w xs)))
      (omega arith)

copied-Prefix :
    (w n : ℕ) (ds : List ℕ)
    → 0 < w
    → All (λ x. x < 2 ^ w) ds
    → length ds ≤ n
    → Prefix ds (map (flip w) (copied n (map (flip w) ds)))
unfolding copied
copied-Prefix w n [] h all le = tt
copied-Prefix w zero (d ∷ ds) h all le = absurd (omega arith)
copied-Prefix w (suc n) (d ∷ ds) h (lt, all) le =
    (sym (flip-flip w d h lt), copied-Prefix w n ds h all (omega arith))

deltas_bounds :
    (w k : ℕ) (xs : List ℕ)
    → All (λ x. x < 2 ^ w) xs
    → (length (deltas w k xs) ≤ length xs) × All (λ x. x < 2 ^ w) (deltas w k xs)
deltas_bounds w zero xs all = (omega arith, all)
deltas_bounds w (suc k) xs all =
    let (le, small) = deltas_bounds w k (differences w xs) (All-differences w xs) in
    (omega (arith, length-differences w xs), small)

-- The values of a page, given by the first values of their differences of each order below k, and by the
-- differences of order k with the top bit flipped, are restored, also where they are fewer than k.
pub restore-deltas :
    (w k : ℕ) (s : Bool) (xs look : List ℕ)
    → 0 < w
    → w ≤ 64
    → All (λ x. x < 2 ^ w) xs
    → restore (consecutive k s) (map (flip w) (deltas w k xs)) (moments w k xs) look (length xs) w
      ≡ ok xs
unfolding restore
restore-deltas w k s xs look pos h all =
    let raw = map (flip w) (deltas w k xs) in
    let out = map (flip w) (copied (length xs) raw) in
    let (le, small) = deltas_bounds w k xs all in
    let counted : length out ≡ length xs =
      length-map (flip w) (copied (length xs) raw) ∙ length-copied (length xs) raw in
    let whole : length (integrate_all w (moments w k xs) out) ≡ length xs =
      length-integrate_all w (moments w k xs) out ∙ counted in
    ap ok (
      Prefix-eq xs (integrate_all w (moments w k xs) out)
        (integrate_all-Prefix w k xs out h all
          (copied-Prefix w (length xs) (deltas w k xs) pos small le) (omega arith))
        (sym whole))
