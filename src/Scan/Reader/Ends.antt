-- ===== src/Scan/Reader/Ends.antt =====
-- A client's loop `for r.Next()`: it ends.
use vortex_go.Base.{ℕ, ◌+◌, ◌≤◌, Option, List, [], ◌∷◌, arith, length}
use vortex_go.Outcome.{Error, Action}
use vortex_go.Schema.{VortexType}
use vortex_go.Layout.{Layout}
use vortex_go.ArrayLib.{ArrayLib}
use vortex_go.Zone.Evaluate.{Table}
use vortex_go.Zone.Evaluate.Sound.{Values}
use vortex_go.Scan.Reader.{Reader, Batch, next}
use vortex_go.Scan.Reader.Next.{IsValid}
use vortex_go.Scan.Reader.Calls.{next-true}
use vortex_go.Scan.Reader.Whole.{Run, start, step}

module _ (lib : ArrayLib) {World : Type 0}
    (decode_layout : Layout → VortexType → Action World lib.Array)
    (decode_flat : Layout → VortexType → Action World lib.Array)
    (ctx_err : World → Option Error × World) (n : ℕ) (columns : ℕ → Values) where
  abbrev Valid : Reader lib.Array (Table lib) → Type 0
  Valid = IsValid lib decode_layout decode_flat ctx_err n columns

  -- On a valid reader of n rows, each call of Next that returns true moves the position by a row at
  -- least and never past the end, whatever happens to the world between the calls. So no more of them
  -- than there are rows left can follow one another, and the reader stays valid.
  pub next_ends :
      (r : Reader lib.Array (Table lib)) (bs : List (Batch lib.Array))
      (last : Reader lib.Array (Table lib))
      → Valid r
      → r.pos ≤ n
      → Run lib decode_layout decode_flat ctx_err n columns r bs last
      → (r.pos + length bs ≤ last.pos) × (last.pos ≤ n) × Valid last
  next_ends r [] last v le start = (omega arith, le, v)
  next_ends r (b ∷ bs) last v le (step w b' t c rest) =
      let (made, l, k) = next-true lib decode_layout decode_flat ctx_err n columns r w v t in
      let (after, some_rows, inside, size, skipped_fail, at_end, current, v') = l in
      let (count, within, v'') =
        next_ends (next lib decode_layout decode_flat ctx_err r w).1 bs last v' (omega arith)
          rest in
      (omega arith, within, v'')
