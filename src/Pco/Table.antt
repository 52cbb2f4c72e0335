-- ===== src/Pco/Table.antt =====
-- The ANS table that `parseLatent` of internal/pco/decode.go builds from the weights of the bins.
pub mod Lengths
pub mod Below
pub mod Slots
use vortex_go.Base.{
  ℕ, zero, suc, ◌+◌, ◌-◌, ◌*◌, ◌/◌, ◌%◌, ◌^◌, Bool, true, false, not, ◌&&◌, ◌||◌, List, [], ◌∷◌,
  map, set, replicate, length, ltb, leb, ◌==◌, if◌then◌else◌,
}
use vortex_go.Outcome.{Result, ok, failed, refuse, ◌>>=◌, ◌>>◌}
use vortex_go.Encoding.Values.{index}

pub record Bin : Type 0 where
  pub weight : ℕ
  pub offset : ℕ
  pub lower : ℕ

pub record AnsNode : Type 0 where
  pub next : ℕ
  pub read : ℕ
  pub offset : ℕ
  pub lower : ℕ

-- bits.Len64(x), of at most `rounds` bits
unfoldable pub bits_len : (rounds : ℕ) → ℕ → ℕ
bits_len zero x = 0
bits_len (suc k) x = let rest = suc (bits_len k (x / 2)) in if x == 0 then 0 else rest

unfoldable pub sum_weights : List Bin → ℕ
sum_weights [] = 0
sum_weights (b ∷ bs) = b.weight + sum_weights bs

-- The step between two slots of a symbol: the odd one of 3 size / 5 and the number after it.
unfoldable pub stride : ℕ → ℕ
stride size = if 3 * size / 5 % 2 == 0 then 3 * size / 5 + 1 else 3 * size / 5

-- The slots of symbol s, of which `left` are still to be given, from this step on. The size is a
-- power of two, and x & (size-1) is the remainder.
unfoldable pub place : (left s step size : ℕ) → List ℕ → List ℕ
unfolding stride
place zero s step size symbols = symbols
place (suc k) s step size symbols =
    place k s (step + 1) size (set symbols (step * stride size % size) s)

unfoldable pub spread : List Bin → (s step size : ℕ) → List ℕ → List ℕ
unfolding place
spread [] s step size symbols = symbols
spread (b ∷ bs) s step size symbols =
    spread bs (s + 1) (step + b.weight) size (place b.weight s step size symbols)

-- The entry of a slot of bin b that is its `next`-th. That the two subtractions do not go below 0 is
-- an invariant of the table.
unfoldable pub ans_node : (size next : ℕ) → Bin → AnsNode
unfolding bits_len
ans_node size next b =
    let nb = bits_len 64 size - bits_len 64 next in
    record { next = next * 2 ^ nb - size; read = nb; offset = b.offset; lower = b.lower }

-- The loop over the slots: `next` counts the slots of each bin.
unfoldable pub build_table : (size : ℕ) → List Bin → (symbols next : List ℕ) → Result (List AnsNode)
unfolding ans_node
build_table size bins [] next = ok []
build_table size bins (s ∷ symbols) next = do
  x ← index next s
  b ← index bins s
  rest ← build_table size bins symbols (set next s (x + 1))
  ok (ans_node size x b ∷ rest)

-- What follows the check of the bins.
unfoldable pub table_of : (log : ℕ) → List Bin → Result (List AnsNode)
unfolding sum_weights spread build_table
table_of log [] = ok []
table_of log (b ∷ bs) = do
  refuse (not (sum_weights (b ∷ bs) == 2 ^ log)) (failed "ANS weights do not sum to table size")
  build_table (2 ^ log) (b ∷ bs) (spread (b ∷ bs) 0 0 (2 ^ log) (replicate (2 ^ log) 0))
      (map (λ c. c.weight) (b ∷ bs))
