-- ===== src/Pco/Output.antt =====
-- The end of `chunk.page` of internal/pco/decode.go: the values of a page from its latent variables.
pub mod Columns
pub mod Values
use vortex_go.Base.{
  ℕ, zero, suc, ◌+◌, ◌-◌, ◌*◌, ◌/◌, ◌%◌, ◌^◌, Bool, true, false, not, ◌&&◌, ◌||◌, List, [], ◌∷◌,
  drop, length, ltb, leb, ◌==◌, if◌then◌else◌,
}
use vortex_go.Outcome.{Result, ok, err, failed, panic, refuse, ◌>>=◌, ◌>>◌}
use vortex_go.Schema.{Kind, is_signed}
use vortex_go.Encoding.Word.{word}
use vortex_go.Encoding.Values.{index}
use vortex_go.Pco.Words.{
  Floats, mask, flip, ordered_bits, float_value, float_ordered, float_product, int_float,
}
use vortex_go.Pco.Mode.{
  Mode, classic, int_mult, float_mult, float_quant, dictionary, Delta, plain, consecutive, lookback,
  convolution,
}
use vortex_go.Pco.Page.{PageVar}
use vortex_go.Pco.Restore.{restore}
use vortex_go.Pco.Chunk.{Chunk, is_floating}

-- The values of a variable, restored where it holds deltas; `look` are the lookbacks.
unfoldable pub restored : Delta → (look : List ℕ) → (n : ℕ) → PageVar → Result (List ℕ)
unfolding restore
restored delta look n p =
    if p.latent.delta then restore delta p.values p.state look n p.latent.width else ok p.values

unfoldable pub restored_all :
    Delta → (look : List ℕ) → (n : ℕ) → List PageVar → Result (List (List ℕ))
unfolding restored
restored_all delta look n [] = ok []
restored_all delta look n (p ∷ ps) = do
  xs ← restored delta look n p
  rest ← restored_all delta look n ps
  ok (xs ∷ rest)

-- The lookbacks are the first variable, where there are any.
unfoldable pub columns : Delta → (n : ℕ) → List PageVar → Result (List (List ℕ))
unfolding restored_all
columns (lookback k w s) n [] = err panic
columns (lookback k w s) n (p ∷ ps) = restored_all (lookback k w s) p.values n ps
columns plain n ps = restored_all plain [] n ps
columns (consecutive k s) n ps = restored_all (consecutive k s) [] n ps
columns (convolution q b ws) n ps = restored_all (convolution q b ws) [] n ps

-- v += mask(quant) - low, if v stands for a negative number
abbrev pub quantized : (width quant v low : ℕ) → ℕ
quantized width quant v low =
    (v * 2 ^ quant + (if ltb v (2 ^ (width - 1) / 2 ^ quant) then 2 ^ quant - 1 - low else low))
    % word

module _ (floats : Floats) where
  -- The value of row i by its mode, from the primary v and the secondary s[i].
  unfoldable pub by_mode : (width : ℕ) → Mode → (v i : ℕ) → (s : List ℕ) → Result ℕ
  unfolding flip ordered_bits float_value float_ordered float_product int_float
  by_mode width classic v i s = ok v
  by_mode width (int_mult base) v i s = do x ← index s i; ok ((v * base + x) % word)
  by_mode width (float_mult base) v i s = do
    x ← index s i
    let product =
        float_product floats (int_float floats v width)
          (float_value floats (ordered_bits base width) width) width
    ok (flip width ((float_ordered floats product width + x) % word))
  by_mode width (float_quant quant) v i s = do
    low ← index s i
    refuse (ltb (2 ^ quant - 1) low) (failed "invalid float quantization residual")
    ok (quantized width quant v low)
  by_mode width (dictionary dict) v i s = do
    refuse (leb (length dict) v) (failed "dictionary index out of bounds")
    index dict v

  -- v &= mask(width), and the bits of the kind
  unfoldable pub to_kind : (width : ℕ) → Kind → ℕ → ℕ
  unfolding ordered_bits flip
  to_kind width kind v =
      if is_floating kind
      then ordered_bits (mask width v) width
      else if is_signed kind
      then flip width (mask width v)
      else mask width v

  -- The loop over the n values that are left, from i on.
  unfoldable pub output : Chunk → (n i : ℕ) → (p s : List ℕ) → Result (List ℕ)
  unfolding by_mode to_kind
  output c zero i p s = ok []
  output c (suc n) i p s = do
    v ← index p i
    x ← by_mode c.width c.mode v i s
    rest ← output c n (i + 1) p s
    ok (to_kind c.width c.kind x ∷ rest)

  -- p, s := vs[primary].values, vs[primary+1].values
  unfoldable pub by_columns : Chunk → (n : ℕ) → List (List ℕ) → Result (List ℕ)
  unfolding output
  by_columns c n [] = err panic
  by_columns c n (p ∷ []) = output c n 0 p []
  by_columns c n (p ∷ s ∷ rest) = output c n 0 p s
