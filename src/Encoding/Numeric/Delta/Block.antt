-- ===== src/Encoding/Numeric/Delta/Block.antt =====
-- The loops of `delta` of internal/encoding/temporal_delta.go within a chunk of 1024 rows.
use vortex_go.Base.{
  ℕ, zero, suc, ◌+◌, ◌-◌, ◌*◌, ◌/◌, ◌%◌, Bool, true, false, ◌&&◌, Option, none, some, List, [], ◌∷◌,
  set, length, ltb, leb, ◌==◌, if◌then◌else◌,
}
use vortex_go.Outcome.{Result, ok, err, panic, ◌>>=◌}
use vortex_go.Encoding.Word.{word, low_bits}
use vortex_go.Encoding.Values.{index}

-- out.bits and out.valid
abbrev pub Rows : Type 0
Rows = List ℕ × Option (List Bool)

abbrev pub order : List ℕ
order = 0 ∷ 4 ∷ 2 ∷ 6 ∷ 1 ∷ 5 ∷ 3 ∷ 7 ∷ []

-- v != nil
unfoldable pub is_present : Option (List Bool) → Bool
is_present none = false
is_present (some m) = true

-- xs[i] = x
unfoldable pub write {ℓ} : {A : Type ℓ} → List A → ℕ → A → Result (List A)
write xs i x = if ltb i (length xs) then ok (set xs i x) else err panic

-- (idx%16)*64 + order[(idx/16)%8]*8 + idx/128
unfoldable pub transposed : ℕ → Result ℕ
transposed i = do o ← index order (i / 16 % 8); ok (i % 16 * 64 + o * 8 + i / 128)

-- order[row/8]*16 + (row%8)*128 + lane
unfoldable pub lane_index : (row lane : ℕ) → Result ℕ
lane_index row lane = do o ← index order (row / 8); ok (o * 16 + row % 8 * 128 + lane)

-- (prev + d) & mask
unfoldable pub add_delta : (w prev d : ℕ) → ℕ
add_delta w prev d = low_bits ((prev + d) % word) (w * 8)

-- The loop over the rows of a lane: `n` rows are left, from `row` on.
unfoldable pub delta_lane :
    (n row lane chunk w prev : ℕ) → (deltas : List ℕ) → (block : List ℕ) → Result (List ℕ)
unfolding lane_index transposed add_delta write
delta_lane zero row lane chunk w prev deltas block = ok block
delta_lane (suc n) row lane chunk w prev deltas block = do
  i ← lane_index row lane
  d ← index deltas (chunk * 1024 + i)
  target ← transposed i
  block' ← write block target (add_delta w prev d)
  delta_lane n (row + 1) lane chunk w (add_delta w prev d) deltas block'

-- The loop over the lanes: `n` lanes are left, from `lane` on, of 1024 / (8 w).
unfoldable pub delta_block : (n lane chunk w : ℕ) → (bases deltas block : List ℕ) → Result (List ℕ)
unfolding delta_lane
delta_block zero lane chunk w bases deltas block = ok block
delta_block (suc n) lane chunk w bases deltas block = do
  prev ← index bases (chunk * (1024 / (w * 8)) + lane)
  block' ← delta_lane (w * 8) 0 lane chunk w prev deltas block
  delta_block n (lane + 1) chunk w bases deltas block'

index_valid : Option (List Bool) → ℕ → Result Bool
index_valid none i = err panic
index_valid (some m) i = index m i

-- `if out.valid != nil { out.valid[row] = deltas.valid[at] }`
write_valid :
    Option (List Bool)
    → (row : ℕ) → Option (List Bool)
    → (at : Result ℕ) → Result (Option (List Bool))
unfolding index_valid write
write_valid none row m at = ok none
write_valid (some v) row m at = do i ← at; b ← index_valid m i; v' ← write v row b; ok (some v')

-- The loop that copies the chunk's rows to `out`: `n` rows are left, from the absolute row i on.
unfoldable pub emit :
    (n i chunk offset : ℕ) → (block : List ℕ) → Option (List Bool) → Rows → Result Rows
unfolding write write_valid transposed
emit zero i chunk offset block m out = ok out
emit (suc n) i chunk offset block m (bits, valid) = do
  x ← index block (i - chunk * 1024)
  bits' ← write bits (i - offset) x
  valid' ←
      write_valid valid (i - offset) m
        (transposed (i - chunk * 1024) >>= λ p. ok (chunk * 1024 + p))
  emit n (i + 1) chunk offset block m (bits', valid')

-- The loop over the deltas after the full chunks: `n` deltas are left, from i on.
remainder_rows :
    (n i w offset rows prev : ℕ) → (deltas : List ℕ) → Option (List Bool) → Rows → Result Rows
unfolding add_delta write write_valid
remainder_rows zero i w offset rows prev deltas m out = ok out
remainder_rows (suc n) i w offset rows prev deltas m (bits, valid) = do
  d ← index deltas i
  out' ←
      (if leb offset i && ltb i (offset + rows)
        then (do
          bits' ← write bits (i - offset) (add_delta w prev d)
          valid' ← write_valid valid (i - offset) m (ok i)
          ok (bits', valid'))
        else ok (bits, valid))
  remainder_rows n (i + 1) w offset rows (add_delta w prev d) deltas m out'

unfoldable pub remainder :
    (count w offset rows : ℕ) → (bases deltas : List ℕ) → Option (List Bool) → Rows → Result Rows
unfolding remainder_rows
remainder count w offset rows bases deltas m out =
    let rest = (do
      prev ← index bases (count / 1024 * (1024 / (w * 8)))
      remainder_rows (count % 1024) (count / 1024 * 1024) w offset rows prev deltas m out) in
    if count % 1024 == 0 then ok out else rest
