-- ===== src/Pco/Mode.antt =====
-- The mode and the delta coding of a chunk, as `parseChunk` of internal/pco/decode.go reads them.
use vortex_go.Base.{
  ℕ, zero, suc, ◌+◌, ◌/◌, ◌^◌, Bool, true, false, not, ◌||◌, List, map, length, ltb, ◌==◌,
  if◌then◌else◌,
}
use vortex_go.Outcome.{failed, refuse, Action}
use vortex_go.Outcome.Act.{pure, raise, lift, ◌>>=◌, ◌>>◌}
use vortex_go.Pco.Words.{flip, narrow}
use vortex_go.Pco.Reader.{Reader, eof, read, read_all, align}

-- mode, with base, quant and dict
pub data Mode : Type 0 where
  classic : Mode
  int_mult : ℕ → Mode
  float_mult : ℕ → Mode
  float_quant : ℕ → Mode
  dictionary : List ℕ → Mode

-- delta, with order, secondary, window, convQuant, bias and weights; the order of a convolution is the
-- number of its weights. The lookback has an order, a window and the secondary flag.
pub data Delta : Type 0 where
  plain : Delta
  consecutive : ℕ → Bool → Delta
  lookback : ℕ → ℕ → Bool → Delta
  convolution : ℕ → ℕ → List ℕ → Delta

abbrev pub order : Delta → ℕ
order plain = 0
order (consecutive n s) = n
order (lookback n w s) = n
order (convolution q b ws) = length ws

abbrev pub secondary : Delta → Bool
secondary plain = false
secondary (consecutive n s) = s
secondary (lookback n w s) = s
secondary (convolution q b ws) = false

abbrev pub is_plain : Delta → Bool
is_plain plain = true
is_plain (consecutive n s) = false
is_plain (lookback n w s) = false
is_plain (convolution q b ws) = false

abbrev pub is_lookback : Delta → Bool
is_lookback (lookback n w s) = true
is_lookback plain = false
is_lookback (consecutive n s) = false
is_lookback (convolution q b ws) = false

-- c.mode and what is read for it, of a buffer of `total` bits
unfoldable pub mode_of : (total width mode : ℕ) → Action Reader Mode
unfolding read read_all align
mode_of total width zero = pure classic
mode_of total width (suc zero) = do base ← read width; pure (int_mult base)
mode_of total width (suc (suc zero)) = do base ← read width; pure (float_mult base)
mode_of total width (suc (suc (suc zero))) = do quant ← read 8; pure (float_quant quant)
mode_of total width (suc (suc (suc (suc zero)))) = do
  n ← read 25
  align
  lift (refuse (ltb (total / width) n) (failed eof))
  dict ← read_all n width
  pure (dictionary dict)
mode_of total width (suc (suc (suc (suc (suc m))))) = raise (failed "unknown mode")

-- c.delta and what is read for it, from version 3 on
unfoldable pub delta_of : ℕ → Action Reader Delta
unfolding read read_all flip narrow
delta_of zero = pure plain
delta_of (suc zero) = do
  n ← read 3
  s ← read 1
  lift (refuse (n == 0) (failed "zero delta order"))
  pure (consecutive n (not (s == 0)))
delta_of (suc (suc zero)) = do
  wl ← read 5
  sl ← read 4
  s ← read 1
  lift (refuse (ltb 24 (1 + wl) || ltb (1 + wl) sl) (failed "invalid lookback window"))
  pure (lookback (2 ^ sl) (2 ^ (1 + wl)) (not (s == 0)))
delta_of (suc (suc (suc zero))) = do
  quant ← read 5
  bias ← read 64
  n ← read 5
  weights ← read_all (1 + n) 32
  pure (convolution quant (flip 64 bias) (map (λ x. narrow 32 (flip 32 x)) weights))
delta_of (suc (suc (suc (suc d)))) = raise (failed "unknown delta variant")

unfoldable pub parse_delta : (version : ℕ) → Action Reader Delta
unfolding read delta_of
parse_delta version =
    if ltb version 3
    then (do n ← read 3; pure (if n == 0 then plain else consecutive n false))
    else (do d ← read 4; delta_of d)
