-- ===== src/Pco/Table/Below.antt =====
-- The ANS table: no entry leads out of it.
use vortex_go.Base.{
  ℕ, zero, suc, ◌+◌, ◌*◌, ◌%◌, ◌^◌, ◌≤◌, ◌<◌, ◌≡◌, refl, ◌∙◌, not, List, [], ◌∷◌, map, All, set,
  replicate, length, length-set, length-replicate, ◌==◌, arith,
}
use vortex_go.Outcome.{failed}
use vortex_go.Encoding.Values.{index}
use vortex_go.Outcome.Sound.{Sound, Sound-ok, Sound-bind, Sound-imp, Sound-refuse, failed-ne-panic}
use vortex_go.Pco.Lists.{index-Sound, All-true, All-imp, All-set, All-replicate, length-map}
use vortex_go.Pco.Table.{
  Bin, AnsNode, sum_weights, stride, place, spread, ans_node, build_table, table_of,
}
use vortex_go.Pco.Table.Lengths.{StaysBelow, ans_node-StaysBelow}

-- A table for 2^log states: as long as that, and closed under every step.
abbrev pub IsClosed : (log : ℕ) → List AnsNode → Type 0
IsClosed log table = (length table ≡ 2 ^ log) × All (StaysBelow (2 ^ log)) table

-- The counts while `left` slots are still to come.
abbrev Counts : (log left : ℕ) → List ℕ → Type 0
Counts log left next = All (λ x. (0 < x) × (x + left ≤ 2 * 2 ^ log)) next

module _ (log : ℕ) (small : log < 63) (bins : List Bin) where
  build_table-Sound :
      (symbols next : List ℕ)
      → length next ≡ length bins
      → All (λ s. s < length bins) symbols
      → Counts log (length symbols) next
      → Sound
          (build_table (2 ^ log) bins symbols next)
          (λ t. (length t ≡ length symbols) × All (StaysBelow (2 ^ log)) t)
  unfolding build_table
  build_table-Sound [] next same known counts = Sound-ok [] (refl, tt)
  build_table-Sound (s ∷ symbols) next same (lt, known) counts =
      let P = λ (x : ℕ). (0 < x) × (x + suc (length symbols) ≤ 2 * 2 ^ log) in
      let Q = λ (x : ℕ). (0 < x) × (x + length symbols ≤ 2 * 2 ^ log) in
      Sound-bind (index next s) _ (index-Sound P next s (omega arith) counts) λ x (pos, le).
        Sound-bind (index bins s) _ (index-Sound _ bins s lt (All-true bins)) λ b u.
          Sound-bind (build_table (2 ^ log) bins symbols (set next s (x + 1))) _
            (build_table-Sound symbols (set next s (x + 1)) (length-set next s (x + 1) ∙ same) known
              (All-set Q next s (x + 1) (omega arith, omega arith)
                (All-imp P Q (λ y p. omega arith) next counts)))
            λ rest (len, all).
              Sound-ok (ans_node (2 ^ log) x b ∷ rest)
                (omega arith, ((ans_node-StaysBelow log x b small pos (omega arith)).2, all))

length-place :
    (k s step size : ℕ) (symbols : List ℕ) → length (place k s step size symbols) ≡ length symbols
unfolding place
length-place zero s step size symbols = refl
length-place (suc k) s step size symbols =
    length-place k s (step + 1) size _ ∙ length-set symbols (step * stride size % size) s

All-place :
    (n k s step size : ℕ) (symbols : List ℕ)
    → s < n
    → All (λ x. x < n) symbols
    → All (λ x. x < n) (place k s step size symbols)
unfolding place
All-place n zero s step size symbols h all = all
All-place n (suc k) s step size symbols h all =
    All-place n k s (step + 1) size _ h
      (All-set (λ x. x < n) symbols (step * stride size % size) s h all)

length-spread :
    (n : ℕ) (bins : List Bin) (s step size : ℕ) (symbols : List ℕ)
    → s + length bins ≤ n
    → All (λ x. x < n) symbols
    → (length (spread bins s step size symbols) ≡ length symbols)
      × All (λ x. x < n) (spread bins s step size symbols)
unfolding spread
length-spread n [] s step size symbols h all = (refl, all)
length-spread n (b ∷ bins) s step size symbols h all =
    let (len, rest) =
      length-spread n bins (s + 1) (step + b.weight) size (place b.weight s step size symbols)
        (omega arith) (All-place n b.weight s step size symbols (omega arith) all) in
    (len ∙ length-place b.weight s step size symbols, rest)

-- Each weight is at most their sum.
weights-Counts :
    (log left : ℕ) (bins : List Bin)
    → All (λ b. 0 < b.weight) bins
    → sum_weights bins + left ≤ 2 * 2 ^ log
    → Counts log left (map (λ b. b.weight) bins)
unfolding sum_weights
weights-Counts log left [] pos h = tt
weights-Counts log left (b ∷ bins) (p, pos) h =
    ((p, omega arith), weights-Counts log left bins pos (omega arith))

-- The table that is built for some bins is closed, and building it does not panic.
pub table_of-IsClosed :
    (log : ℕ) (b : Bin) (bins : List Bin)
    → log < 63
    → All (λ c. 0 < c.weight) (b ∷ bins)
    → Sound (table_of log (b ∷ bins)) (IsClosed log)
unfolding table_of
table_of-IsClosed log b bins small pos =
    Sound-refuse (not (sum_weights (b ∷ bins) == 2 ^ log)) (failed _) _ (failed-ne-panic _) λ sums.
      let full : sum_weights (b ∷ bins) ≡ 2 ^ log = ground arith in
      let (len, known) =
        length-spread (suc (length bins)) (b ∷ bins) 0 0 (2 ^ log) (replicate (2 ^ log) 0)
          (omega arith) (All-replicate (λ x. x < suc (length bins)) (2 ^ log) 0 (omega arith)) in
      let counted = len ∙ length-replicate (2 ^ log) 0 in
      Sound-imp _
        (build_table-Sound log small (b ∷ bins) _ _ (length-map (λ c. c.weight) (b ∷ bins)) known
          (weights-Counts log _ (b ∷ bins) pos (omega arith)))
        (λ t (len', all). (len' ∙ counted, all))
