-- ===== src/Scan/Reader/Columns.antt =====
-- The columns of a batch: every cursor finds its piece, and reading moves no cursor.
use vortex_go.Base.{ℕ, ◌≤◌, ◌<◌, ◌≡◌, refl, ap, Option, List, [], ◌∷◌, All, arith, min}
use vortex_go.Outcome.{Error, Result, ok, err, Action}
use vortex_go.Schema.{VortexType}
use vortex_go.Layout.{Layout}
use vortex_go.ArrayLib.{ArrayLib}
use vortex_go.Zone.Evaluate.{Table}
use vortex_go.Scan.Plan.{Piece, ColumnPlan}
use vortex_go.Scan.Cursor.{Ready, cursor_at, cursor_at-Found, cursor_at-Ready, Ready-later}
use vortex_go.Scan.Reader.{plan_at, locate, with_piece, read_columns}
use vortex_go.Scan.Reader.Read.{Cursor, read_column}
use vortex_go.Scan.Reader.Read.Place.{SamePlace, read_column-SamePlace}

module _ (lib : ArrayLib) (n : ℕ) (plans : List (ColumnPlan (Table lib))) where
  -- The cursor can go on from row `pos`.
  abbrev pub ReadyAt : ℕ → Cursor lib.Array → Type 0
  ReadyAt pos c = Ready n (plan_at plans c.plan).pieces pos c.index

  -- The piece holds the rows from `pos` up to `end`.
  abbrev pub Holds : (pos end : ℕ) → ℕ × Piece → Type 0
  Holds pos end (i, p) = (p.start ≤ pos) × (end ≤ p.end)

  pub ready_later :
      (cs : List (Cursor lib.Array)) (pos later : ℕ)
      → pos ≤ later
      → All (ReadyAt pos) cs
      → All (ReadyAt later) cs
  ready_later [] pos later h r = tt
  ready_later (c ∷ cs) pos later h (r, rs) =
      (Ready-later n _ pos later c.index h r, ready_later cs pos later h rs)

  pub record Located (pos end : ℕ) (out : Result (ℕ × List (ℕ × Piece)) × List (Cursor lib.Array))
      : Type 0 where
    pub last : ℕ
    pub pieces : List (ℕ × Piece)
    pub answer : out.0 ≡ ok (last, pieces)
    pub ahead : pos < last
    pub no_later : last ≤ end
    pub holds : All (Holds pos last) pieces
    pub ready : All (ReadyAt pos) out.1

  -- Every column finds a piece that holds the batch.
  pub locate-Located :
      (cs : List (Cursor lib.Array)) (pos end : ℕ)
      → All (ReadyAt pos) cs
      → pos < n
      → pos < end
      → Located pos end (locate lib cs plans pos end)
  unfolding locate
  locate-Located [] pos end r below lt = record {
    last = end;
    pieces = [];
    answer = refl;
    ahead = lt;
    no_later = omega arith;
    holds = tt;
    ready = tt;
  }
  locate-Located (c ∷ cs) pos end (r, rs) below lt =
      let pieces = (plan_at plans c.plan).pieces in
      let f = cursor_at-Found pieces c.index pos n r below in
      let k = cursor_at-Ready pieces c.index pos n r below in
      let rest = locate-Located cs pos (min end f.piece.end) rs below (omega (arith, f.ends)) in
      rw (f.answer, locate)
        (record {
          last = rest.last;
          pieces = ((cursor_at pieces c.index pos).1, f.piece) ∷ rest.pieces;
          answer = ap (with_piece lib (cursor_at pieces c.index pos).1 f.piece) rest.answer;
          ahead = rest.ahead;
          no_later = omega (arith, rest.no_later);
          holds = ((f.starts, omega (arith, rest.no_later)), rest.holds);
          ready = (k, rest.ready);
        })

  -- The same pieces, the same readiness.
  pub Ready-same_pieces :
      (plans' : List (ColumnPlan (Table lib))) (cs : List (Cursor lib.Array)) (pos : ℕ)
      → ((j : ℕ) → (plan_at plans' j).pieces ≡ (plan_at plans j).pieces)
      → All (ReadyAt pos) cs
      → All (λ c. Ready n (plan_at plans' c.plan).pieces pos c.index) cs
  Ready-same_pieces plans' [] pos h r = tt
  Ready-same_pieces plans' (c ∷ cs) pos h (r, rs) =
      (rw (h c.plan) r, Ready-same_pieces plans' cs pos h rs)

  module _ {World : Type 0} (decode_layout : Layout → VortexType → Action World lib.Array)
      (decode_flat : Layout → VortexType → Action World lib.Array)
      (ctx_err : World → Option Error × World) where
    -- Reading the columns moves no cursor.
    pub read_columns-ready :
        (cs : List (Cursor lib.Array)) (ps : List (ℕ × Piece)) (pos end at : ℕ) (w : World)
        → All (ReadyAt at) cs
        → All (ReadyAt at) (read_columns lib decode_layout decode_flat ctx_err cs ps pos end w).1
    unfolding read_columns
    read_columns-ready [] ps pos end at w r = r
    read_columns-ready (c ∷ cs) [] pos end at w r = r
    read_columns-ready (c ∷ cs) ((i, p) ∷ ps) pos end at w (r, rs) =
        step (read_column lib decode_layout decode_flat c i p pos end w).0 refl
          (read_columns-ready cs ps pos end at _ rs)
      where
        place : SamePlace c (read_column lib decode_layout decode_flat c i p pos end w).1
        place = read_column-SamePlace lib decode_layout decode_flat c i p pos end w

        moved : ReadyAt at (read_column lib decode_layout decode_flat c i p pos end w).1
        moved = rw (place.same_plan, place.same_index) r

        step :
            (o : Result lib.Array)
            → (read_column lib decode_layout decode_flat c i p pos end w).0 ≡ o
            → All
                (ReadyAt at)
                (read_columns lib decode_layout decode_flat ctx_err cs ps pos end
                  (read_column lib decode_layout decode_flat c i p pos end w).2).1
            → All
                (ReadyAt at)
                (read_columns lib decode_layout decode_flat ctx_err
                  (c ∷ cs)
                  ((i, p) ∷ ps)
                  pos
                  end
                  w).1
        step (err e) q ih = rw (q, read_columns) (moved, rs)
        step (ok a) q ih = rw (q, read_columns) (moved, ih)
