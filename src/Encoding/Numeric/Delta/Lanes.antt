-- ===== src/Encoding/Numeric/Delta/Lanes.antt =====
-- No two rows of a block share an entry (`delta` of internal/encoding/temporal_delta.go).
use vortex_go.Base.{
  zero, suc, Bool-cases, ℕ, ◌+◌, ◌*◌, ◌/◌, ◌%◌, ◌<◌, ◌≡◌, refl, sym, subst, Bool, true, false, ◌&&◌,
  ◌==◌, ◌⊎◌, inl, inr, get_or, ltb, arith,
}
use vortex_go.Outcome.{Result, ok, err, ◌>>=◌}
use vortex_go.Encoding.Numeric.Delta.Block.{order, lane_index, transposed}

-- Does a test hold for all the numbers below n?
abbrev all_below : ℕ → (ℕ → Bool) → Bool
all_below zero test = true
all_below (suc n) test = let rest = all_below n test in test n && rest

all_below_lem :
    (n : ℕ) (test : ℕ → Bool) → all_below n test ≡ true → (i : ℕ) → i < n → test i ≡ true
all_below_lem zero test h i lt = absurd (omega arith)
all_below_lem (suc n) test h i lt = elim (Bool-cases (n == i)) [
  | inl e ↦
      let same : n ≡ i = ground arith in
      let here : test n ≡ true = ground (arith, h) in subst (λ k. test k ≡ true) same here
  | inr e ↦ all_below_lem n test (ground (arith, h)) i (ground arith)
]

-- The lane of an entry, where a lane has as many rows as an integer has bits.
abbrev pub lane_of : (bits entry : ℕ) → ℕ
lane_of bits entry = entry / 64 + 16 * get_or order (entry % 64 / bits * (bits / 8)) 0

-- An entry of the block from which the row and the lane can be told.
Told : (bits row lane : ℕ) → Result ℕ → Type 0
Told bits row lane r =
    (entry : ℕ) × (r ≡ ok entry)
    × (entry < 1024)
    × (entry % bits ≡ row)
    × (lane_of bits entry ≡ lane)

is_told : (bits row lane : ℕ) → Result ℕ → Bool
is_told bits row lane (err e) = false
is_told bits row lane (ok n) = ltb n 1024 && n % bits == row && lane_of bits n == lane

is_told-Told :
    (bits row lane : ℕ) (r : Result ℕ) → is_told bits row lane r ≡ true → Told bits row lane r
unfolding is_told Told
is_told-Told bits row lane (err e) h = cc
is_told-Told bits row lane (ok n) h = (n, refl, ground arith, ground arith, ground arith)

lanes_test : (bits row : ℕ) → Bool
unfolding is_told lane_index transposed
lanes_test bits row =
    all_below (1024 / bits) (λ lane. is_told bits row lane (lane_index row lane >>= transposed))

block8 : all_below 8 (lanes_test 8) ≡ true
unfolding lanes_test
block8 = refl

block16 : all_below 16 (lanes_test 16) ≡ true
unfolding lanes_test
block16 = refl

block32 : all_below 32 (lanes_test 32) ≡ true
unfolding lanes_test
block32 = refl

block64 : all_below 64 (lanes_test 64) ≡ true
unfolding lanes_test
block64 = refl

tests_of :
    (known bits : ℕ)
    → all_below known (lanes_test known) ≡ true
    → bits ≡ known
    → all_below bits (lanes_test bits) ≡ true
tests_of known bits h e = subst (λ n. all_below n (lanes_test n) ≡ true) (sym e) h

told :
    (bits row lane : ℕ)
    → all_below bits (lanes_test bits) ≡ true
    → row < bits
    → lane < 1024 / bits
    → Told bits row lane (lane_index row lane >>= transposed)
unfolding lanes_test
told bits row lane tests h k = is_told-Told bits row lane _ (
    all_below_lem (1024 / bits) (λ x. is_told bits row x (lane_index row x >>= transposed))
      (all_below_lem bits (lanes_test bits) tests row h) lane k)

-- For the integers of 8, 16, 32 and 64 bits, the loop of `delta` computes for each row and lane of a block
-- an entry within the block, from which the row and the lane can be told: no two of them share one.
pub transposed-Told :
    (bits row lane : ℕ)
    → (bits ≡ 8) ⊎ (bits ≡ 16) ⊎ (bits ≡ 32) ⊎ (bits ≡ 64)
    → row < bits
    → lane < 1024 / bits
    → (entry : ℕ) × ((lane_index row lane >>= transposed) ≡ ok entry)
      × (entry < 1024)
      × (entry % bits ≡ row)
      × (lane_of bits entry ≡ lane)
unfolding Told
transposed-Told bits row lane (inl e) h k = told bits row lane (tests_of 8 bits block8 e) h k
transposed-Told bits row lane (inr (inl e)) h k =
    told bits row lane (tests_of 16 bits block16 e) h k
transposed-Told bits row lane (inr (inr (inl e))) h k =
    told bits row lane (tests_of 32 bits block32 e) h k
transposed-Told bits row lane (inr (inr (inr e))) h k =
    told bits row lane (tests_of 64 bits block64 e) h k
