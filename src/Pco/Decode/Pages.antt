-- ===== src/Pco/Decode/Pages.antt =====
-- `chunk.page` on any bytes: as many values as were asked for, of the width of the kind, and no panic.
use vortex_go.Base.{ℕ, suc, ◌<◌, refl, sym, List, length, subst, arith}
use vortex_go.Outcome.Sound.{Sound, Sound-ok, Sound-bind}
use vortex_go.Schema.{Kind}
use vortex_go.Pco.Words.{Floats}
use vortex_go.Pco.Reader.{open_reader, finish}
use vortex_go.Pco.Reader.Total.{finish-Always}
use vortex_go.Pco.Mode.{
  Mode, classic, int_mult, float_mult, float_quant, dictionary, Delta, plain, consecutive, lookback,
  convolution,
}
use vortex_go.Pco.Chunk.{Chunk}
use vortex_go.Pco.Chunk.Shapes.{shapes, second_shapes, IsChunk}
use vortex_go.Pco.Page.{read_page}
use vortex_go.Pco.Page.Batches.{AreFull, read_page-AreFull}
use vortex_go.Pco.Output.{columns, by_columns}
use vortex_go.Pco.Output.Columns.{inner, StartsWell, columns-Sound}
use vortex_go.Pco.Output.Values.{AreValues, Suffice, by_columns-Sound}
use vortex_go.Pco.Decode.{page_vars, page}

shapes-StartsWell : (w : ℕ) (d : Delta) (m : Mode) → StartsWell d (shapes w d m)
shapes-StartsWell w plain m = tt
shapes-StartsWell w (consecutive k s) m = tt
shapes-StartsWell w (convolution q b ws) m = tt
shapes-StartsWell w (lookback k n s) m = refl

second-Suffice : (w : ℕ) (d : Delta) (m : Mode) → Suffice m (suc (length (second_shapes w d m)))
second-Suffice w d classic = (omega arith, λ e. cc)
second-Suffice w d (int_mult b) = (omega arith, λ e. omega arith)
second-Suffice w d (float_mult b) = (omega arith, λ e. omega arith)
second-Suffice w d (float_quant q) = (omega arith, λ e. omega arith)
second-Suffice w d (dictionary ds) = (omega arith, λ e. cc)

shapes-Suffice : (w : ℕ) (d : Delta) (m : Mode) → Suffice m (length (inner d (shapes w d m)))
shapes-Suffice w plain m = second-Suffice w plain m
shapes-Suffice w (consecutive k s) m = second-Suffice w (consecutive k s) m
shapes-Suffice w (convolution q b ws) m = second-Suffice w (convolution q b ws) m
shapes-Suffice w (lookback k n s) m = second-Suffice w (lookback k n s) m

page_vars-Sound :
    (w : ℕ) (kind : Kind) (c : Chunk) (b : List ℕ) (n : ℕ)
    → IsChunk w kind c
    → Sound (page_vars c b n) (AreFull c.delta n 0 (shapes w c.delta c.mode))
unfolding page_vars
page_vars-Sound w kind c b n h =
    let (r, reader) = read_page c.delta c.vars n (open_reader b) in
    Sound-bind r _
      ((read_page-AreFull c.delta c.vars n (shapes w c.delta c.mode) h.vars).each (open_reader b))
      λ ps full. Sound-bind (finish reader).0 _ (finish-Always.each reader) λ u t. Sound-ok ps full

module _ (floats : Floats) where
  -- On a chunk that parseChunk returns and any bytes, c.page(data, n) does not panic, and where it
  -- succeeds it gives n values of the chunk's width.
  pub page-AreValues :
      (w : ℕ) (kind : Kind) (c : Chunk) (b : List ℕ) (n : ℕ)
      → 0 < w
      → IsChunk w kind c
      → Sound (page floats c b n) (AreValues w n)
  unfolding page
  page-AreValues w kind c b n pos h =
      Sound-bind (page_vars c b n) _ (page_vars-Sound w kind c b n h) λ ps full.
        Sound-bind (columns c.delta n ps) _
          (columns-Sound c.delta n (shapes w c.delta c.mode) ps (shapes-StartsWell w c.delta c.mode)
            full)
          λ cs (count, all).
            subst (λ k. Sound (by_columns floats c n cs) (AreValues k n)) h.wide
              (by_columns-Sound floats c n cs (rw h.wide pos)
                (subst (Suffice c.mode) (sym count) (shapes-Suffice w c.delta c.mode)) all)
