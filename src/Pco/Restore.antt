-- ===== src/Pco/Restore.antt =====
-- `chunk.restore` of internal/pco/decode.go: the values of a page from their deltas.
pub mod Lengths
pub mod Consecutive
pub mod Lookback
pub mod Convolution
use vortex_go.Base.{
  ℕ, zero, suc, ◌+◌, ◌-◌, ◌*◌, ◌/◌, ◌%◌, ◌^◌, min, Bool, ◌||◌, List, [], ◌∷◌, ◌++◌, map, take, drop,
  replicate, get_or, length, ltb, leb, ◌==◌, if◌then◌else◌,
}
use vortex_go.Outcome.{Result, ok, err, failed, panic, refuse, ◌>>=◌, ◌>>◌}
use vortex_go.Encoding.Word.{word}
use vortex_go.Pco.Words.{mask, flip}
use vortex_go.Pco.Mode.{Delta, plain, consecutive, lookback, convolution}

-- The loop over a level of deltas: each entry becomes the sum of the moment and those before it.
unfoldable pub integrate : (w moment : ℕ) → List ℕ → List ℕ
integrate w moment [] = []
integrate w moment (d ∷ ds) = moment ∷ integrate w (mask w ((moment + d) % word)) ds

-- The levels, the last moment first.
unfoldable pub integrate_all : (w : ℕ) → (state : List ℕ) → List ℕ → List ℕ
unfolding integrate
integrate_all w [] out = out
integrate_all w (m ∷ ms) out = integrate w m (integrate_all w ms out)

-- make([]uint64, n) and copy(out, raw)
unfoldable pub copied : (n : ℕ) → List ℕ → List ℕ
copied zero raw = []
copied (suc n) [] = 0 ∷ copied n []
copied (suc n) (x ∷ raw) = x ∷ copied n raw

-- The loop over the deltas of a lookback, behind the values of `out`.
unfoldable pub look_back : (w window : ℕ) → (raw look out : List ℕ) → Result (List ℕ)
unfolding flip
look_back w window [] look out = ok out
look_back w window (d ∷ raw) [] out = err panic
look_back w window (d ∷ raw) (back ∷ look) out = do
  refuse (back == 0 || ltb window back) (failed "invalid lookback")
  let prev = if leb back (length out) then get_or out (length out - back) 0 else 0
  look_back w window raw look (out ++ mask w ((prev + flip w d) % word) ∷ [])

-- The sum of the bias and the weighted values from `start` on, as an int64
unfoldable pub conv_sum : ℕ → (weights values : List ℕ) → Result ℕ
conv_sum sum [] values = ok sum
conv_sum sum (c ∷ cs) [] = err panic
conv_sum sum (c ∷ cs) (v ∷ vs) = conv_sum ((sum + v * c) % word) cs vs

-- An int64, or 0 in the place of a negative one.
abbrev pub at_least_zero : ℕ → ℕ
at_least_zero x = if leb (2 ^ 63) x then 0 else x

-- The loop over the deltas of a convolution, behind the values of `out`; a start before the first value
-- is a panic.
unfoldable pub convolve : (w quant bias : ℕ) → (weights raw out : List ℕ) → Result (List ℕ)
unfolding flip conv_sum
convolve w quant bias weights [] out = ok out
convolve w quant bias weights (d ∷ raw) out = do
  refuse (ltb (length out) (length weights)) panic
  sum ← conv_sum bias weights (drop (length out - length weights) out)
  convolve w quant bias weights raw
      (out ++ mask w ((at_least_zero sum / 2 ^ quant + flip w d) % word) ∷ [])

-- c.restore(raw, state, look, n, w)
unfoldable pub restore : Delta → (raw state look : List ℕ) → (n w : ℕ) → Result (List ℕ)
unfolding integrate_all copied look_back convolve
restore plain raw state look n w = ok raw
restore (consecutive k s) raw state look n w =
    ok (integrate_all w state (map (flip w) (copied n raw)))
restore (lookback k window s) raw state look n w =
    look_back w window raw look (drop (length state - min n (length state)) state)
restore (convolution quant bias weights) raw state look n w =
    convolve w quant bias weights raw (take (min n (length state)) state)
