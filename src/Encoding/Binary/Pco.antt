-- ===== src/Encoding/Binary/Pco.antt =====
-- `decoder.pco` of internal/encoding/binary.go: the counts of the pages, and the rows that are valid.
use vortex_go.Base.{
  ℕ, zero, suc, ◌+◌, ◌^◌, Bool, true, false, Option, List, [], ◌∷◌, drop, ltb, ◌==◌, if◌then◌else◌,
}
use vortex_go.Outcome.{Result, ok, failed, refuse, ◌>>=◌, ◌>>◌}
use vortex_go.Encoding.Word.{read_word}
use vortex_go.Encoding.Proto.{Proto, parse_proto, num}
use vortex_go.Encoding.Values.{is_valid}

-- The pages of a chunk, after `total` values: their counts, and the total behind them.
unfoldable pub page_counts : (rows total : ℕ) → Proto → Result (List ℕ × ℕ)
unfolding parse_proto num
page_counts rows total [] = ok ([], total)
page_counts rows total (p ∷ ps) = elim (p.tag == 1) [
  | true ↦ (do
    page ← parse_proto p.content
    refuse (ltb (2 ^ 24) (num page 1)) (failed "PCO page exceeds value limit")
    refuse (ltb rows (total + num page 1)) (failed "PCO has too many values")
    (counts, sum) ← page_counts rows (total + num page 1) ps
    ok (num page 1 ∷ counts, sum))
  | false ↦ page_counts rows total ps
]

-- The chunks, after `total` values.
unfoldable pub chunk_counts : (rows total : ℕ) → Proto → Result (List (List ℕ) × ℕ)
unfolding page_counts
chunk_counts rows total [] = ok ([], total)
chunk_counts rows total (f ∷ fs) = elim (f.tag == 2) [
  | true ↦ (do
    chunk ← parse_proto f.content
    (pages, sum) ← page_counts rows total chunk
    (rest, all) ← chunk_counts rows sum fs
    ok (pages ∷ rest, all))
  | false ↦ chunk_counts rows total fs
]

-- How many of the rows from i on are valid, where `n` are left.
unfoldable pub valid_count : (n i : ℕ) → Option (List Bool) → Result ℕ
unfolding is_valid
valid_count zero i valid = ok 0
valid_count (suc n) i valid = do
  v ← is_valid valid i
  k ← valid_count n (i + 1) valid
  ok (if v then suc k else k)

-- The bits of the rows from i on: a valid row takes the next `w` bytes.
unfoldable pub spread_words : (n i w : ℕ) → Option (List Bool) → List ℕ → Result (List ℕ)
unfolding is_valid read_word
spread_words zero i w valid raw = ok []
spread_words (suc n) i w valid raw = do
  v ← is_valid valid i
  x ← (if v then read_word raw w else ok 0)
  rest ← spread_words n (i + 1) w valid (if v then drop w raw else raw)
  ok (x ∷ rest)
