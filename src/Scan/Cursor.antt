-- ===== src/Scan/Cursor.antt =====
-- `columnCursor.at` of scan.go: the piece of a column that holds a row.
use vortex_go.Base.{
  ℕ, zero, suc, ◌+◌, ◌≤◌, ◌<◌, ◌≡◌, refl, List, [], ◌∷◌, drop, arith, ltb, leb, Bool-cases, inl,
  inr, if◌then◌else◌,
}
use vortex_go.Outcome.{Result, ok, err, invalid}
use vortex_go.Scan.Plan.{Piece}
use vortex_go.Scan.Plan.Tiling.{Tiles}

-- `for c.index < len(pieces) && pieces[c.index].end <= pos { c.index++ }`, on the pieces from
-- `index` on: the index that the loop stops at, and the pieces from there on.
skip_pieces : List Piece → (index pos : ℕ) → ℕ × List Piece
skip_pieces [] index pos = (index, [])
skip_pieces (p ∷ ps) index pos =
    let rest = skip_pieces ps (index + 1) pos in if leb p.end pos then rest else (index, p ∷ ps)

found : (index pos : ℕ) → List Piece → Result (ℕ × Piece)
found index pos [] = err (invalid "column layout has a row gap")
found index pos (p ∷ ps) =
    if ltb pos p.start then err (invalid "column layout has a row gap") else ok (index, p)

found_at : ℕ → ℕ × List Piece → Result (ℕ × Piece) × ℕ
unfolding found
found_at pos (i, rest) = (found i pos rest, i)

-- c.at(pos): the piece with its index, and the new c.index
unfoldable pub cursor_at : List Piece → (index pos : ℕ) → Result (ℕ × Piece) × ℕ
unfolding skip_pieces found_at
cursor_at pieces index pos = found_at pos (skip_pieces (drop index pieces) index pos)

-- From `index` on the pieces tile the rows up to `b`, beginning at or before `pos`.
pub record Ready (b : ℕ) (pieces : List Piece) (pos index : ℕ) : Type 0 where
  pub first : ℕ
  pub first_le : first ≤ pos
  pub tiles : Tiles first b (drop index pieces)

drop-suc {ℓ} :
    {A : Type ℓ} (i : ℕ) (xs : List A) (x : A) (rest : List A)
    → drop i xs ≡ x ∷ rest
    → drop (i + 1) xs ≡ rest
drop-suc zero [] x rest h = cc
drop-suc zero (y ∷ ys) x rest h = ground arith
drop-suc (suc i) [] x rest h = cc
drop-suc (suc i) (y ∷ ys) x rest h = ground (arith, drop-suc i ys x rest h)

-- What the search finds in pieces that tile up to `b` and begin at or before `pos`.
pub record Found (b : ℕ) (pieces : List Piece) (pos : ℕ) (r : Result (ℕ × Piece) × ℕ) : Type 0 where
  pub piece : Piece
  pub rest : List Piece
  pub answer : r.0 ≡ ok (r.1, piece)
  pub there : drop r.1 pieces ≡ piece ∷ rest
  pub starts : piece.start ≤ pos
  pub ends : pos < piece.end
  pub tiles : Tiles piece.end b rest

skip-Found :
    (pieces ps : List Piece) (index pos b first : ℕ)
    → drop index pieces ≡ ps
    → Tiles first b ps
    → first ≤ pos
    → pos < b
    → Found b pieces pos (found_at pos (skip_pieces ps index pos))
unfolding skip_pieces found_at
skip-Found pieces [] index pos b first e t le lt = absurd (omega arith)
skip-Found pieces (p ∷ ps) index pos b first e (s, le', t) le lt =
    elim (Bool-cases (leb p.end pos)) [
      | inl past ↦ rw past (
          skip-Found pieces ps (index + 1) pos b p.end (drop-suc index pieces p ps e) t
            (ground arith) lt)
      | inr here ↦ rw here (record {
        piece = p;
        rest = ps;
        answer = ground arith;
        there = e;
        starts = omega arith;
        ends = ground arith;
        tiles = t;
      })
    ]

-- If the pieces from the cursor's index on tile the rows up to b from a row that is not after pos, and
-- pos is before b, then the cursor finds a piece that holds pos, its new index is that piece's, and the
-- pieces after it tile the rows from its end up to b.
pub cursor_at-Found :
    (pieces : List Piece) (index pos b : ℕ)
    → Ready b pieces pos index
    → pos < b
    → Found b pieces pos (cursor_at pieces index pos)
unfolding cursor_at
cursor_at-Found pieces index pos b ready lt =
    skip-Found pieces (drop index pieces) index pos b ready.first refl ready.tiles ready.first_le lt

pub cursor_at-Ready :
    (pieces : List Piece) (index pos b : ℕ)
    → Ready b pieces pos index
    → pos < b
    → Ready b pieces pos (cursor_at pieces index pos).1
cursor_at-Ready pieces index pos b ready lt =
    let f = cursor_at-Found pieces index pos b ready lt in
    record {
      first = f.piece.start;
      first_le = f.starts;
      tiles = rw f.there (refl, omega (arith, f.starts, f.ends), f.tiles);
    }

pub Ready-later :
    (b : ℕ) (pieces : List Piece) (pos later index : ℕ)
    → pos ≤ later
    → Ready b pieces pos index
    → Ready b pieces later index
Ready-later b pieces pos later index h r = record {
  first = r.first;
  first_le = omega arith;
  tiles = r.tiles;
}
