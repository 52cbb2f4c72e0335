-- ===== src/Pco/Chunk.antt =====
-- `chunk` and `parseChunk` of internal/pco/decode.go.
pub mod Shapes
pub mod Parsed
use vortex_go.Base.{
  ℕ, zero, suc, ◌+◌, ◌-◌, ◌*◌, ◌/◌, ◌%◌, ◌^◌, Bool, true, false, not, ◌&&◌, ◌||◌, List, [], ◌∷◌,
  ◌++◌, map, length, ltb, leb, ◌==◌, if◌then◌else◌,
}
use vortex_go.Outcome.{Result, ok, err, failed, refuse, Action}
use vortex_go.Outcome.Act.{pure, raise, lift, ◌>>=◌, ◌>>◌}
use vortex_go.Schema.{Kind, is_kind}
use vortex_go.Pco.Words.{Floats, flip, narrow, ordered_bits, float_value}
use vortex_go.Pco.Reader.{Reader, open_reader, eof, read, read_all, align, finish}
use vortex_go.Pco.Table.{Bin}
use vortex_go.Pco.Latent.{Latent, parse_latent}
use vortex_go.Pco.Mode.{
  Mode, classic, int_mult, float_mult, float_quant, dictionary, Delta, plain, consecutive, lookback,
  convolution, secondary, is_plain, mode_of, parse_delta,
}

pub record Chunk : Type 0 where
  pub width : ℕ
  pub kind : Kind
  pub mode : Mode
  pub delta : Delta
  pub vars : List Latent

-- kind[0] == 'f'
abbrev pub is_floating : Kind → Bool
is_floating k = is_kind k Kind.f16 || is_kind k Kind.f32 || is_kind k Kind.f64

-- The bits of a stored fraction; a width that is not in the map has 0.
abbrev fraction : ℕ → ℕ
fraction w = if w == 16 then 10 else if w == 32 then 23 else if w == 64 then 52 else 0

unfoldable pub check_bins : (window : ℕ) → List Bin → Result (Unit {0})
check_bins window [] = ok tt
check_bins window (b ∷ bs) =
    if ltb b.lower 1 || ltb window b.lower
    then err (failed "invalid lookback bin")
    else check_bins window bs

-- The latent variable of the lookbacks, where there is one.
unfoldable pub lookback_vars : Delta → Action Reader (List Latent)
unfolding parse_latent check_bins
lookback_vars plain = pure []
lookback_vars (consecutive n s) = pure []
lookback_vars (convolution q b ws) = pure []
lookback_vars (lookback n window s) = do
  v ← parse_latent 32 false
  lift (check_bins window v.bins)
  pure (v ∷ [])

-- The width of the primary latent variable.
abbrev pub primary_width : (width : ℕ) → Mode → ℕ
primary_width width classic = width
primary_width width (int_mult b) = width
primary_width width (float_mult b) = width
primary_width width (float_quant q) = width
primary_width width (dictionary d) = 32

-- The secondary latent variable of the modes 1 to 3.
unfoldable pub secondary_vars : (width : ℕ) → Delta → Mode → Action Reader (List Latent)
unfolding parse_latent
secondary_vars width delta classic = pure []
secondary_vars width delta (dictionary d) = pure []
secondary_vars width delta (int_mult b) = do v ← parse_latent width (secondary delta); pure (v ∷ [])
secondary_vars width delta (float_mult b) = do
  v ← parse_latent width (secondary delta)
  pure (v ∷ [])
secondary_vars width delta (float_quant q) = do
  v ← parse_latent width (secondary delta)
  pure (v ∷ [])

module _ (floats : Floats) where
  open floats use {is_nan, is_inf, is_zero, of_int64, ldexp_one, abs, add, mul64, leb_float, Float}

  unfoldable pub check_mode : (width : ℕ) → Kind → Mode → Result (Unit {0})
  unfolding ordered_bits float_value
  check_mode width kind classic = ok tt
  check_mode width kind (int_mult base) =
      refuse (is_floating kind || base == 0) (failed "invalid integer mode")
  check_mode width kind (float_mult base) =
      let b = float_value floats (ordered_bits base width) width in
      refuse (not (is_floating kind) || is_nan b || is_inf b || is_zero b)
        (failed "invalid float multiplier")
  check_mode width kind (float_quant quant) =
      refuse (not (is_floating kind) || ltb quant 1 || ltb (fraction width) quant)
        (failed "invalid float quantization")
  check_mode width kind (dictionary dict) = ok tt

  -- |bias| and 2^pw |w| for each weight, added up
  unfoldable pub conv_bound : (pw : ℕ) → Float → List ℕ → Float
  conv_bound pw bound [] = bound
  conv_bound pw bound (w ∷ ws) =
      conv_bound pw (add bound (mul64 (ldexp_one pw) (abs (of_int64 w)))) ws

  -- The checks of a convolution on latents of pw bits, and its bias and weights, narrowed.
  unfoldable pub check_delta : (pw : ℕ) → Delta → Result Delta
  unfolding narrow conv_bound
  check_delta pw plain = ok plain
  check_delta pw (consecutive n s) = ok (consecutive n s)
  check_delta pw (lookback n w s) = ok (lookback n w s)
  check_delta pw (convolution quant bias weights) =
      let wide = pw * 2 in
      let b = if wide == 16 then narrow 16 bias else if wide == 32 then narrow 32 bias else bias in
      let ws = if wide == 16 then map (narrow 16) weights else weights in
      if ltb 32 pw
      then err (failed "convolution unsupported for 64-bit latents")
      else if leb wide quant
      then err (failed "invalid convolution quantization")
      else if leb_float (ldexp_one (wide - 1)) (conv_bound pw (abs (of_int64 b)) ws)
      then err (failed "convolution overflow")
      else ok (convolution quant b ws)

  -- parseChunk behind the opening of the reader, of a buffer of `total` bits
  unfoldable pub parse_fields : (total version width : ℕ) → Kind → Action Reader Chunk
  unfolding read mode_of check_mode parse_delta lookback_vars check_delta parse_latent
      secondary_vars finish
  parse_fields total version width kind = do
    m ← read 4
    mode ← mode_of total width m
    lift (check_mode width kind mode)
    raw ← parse_delta version
    looks ← lookback_vars raw
    delta ← lift (check_delta (primary_width width mode) raw)
    v ← parse_latent (primary_width width mode) (not (is_plain delta))
    rest ← secondary_vars width delta mode
    finish
    pure (record {
      width = width;
      kind = kind;
      mode = mode;
      delta = delta;
      vars = looks ++ v ∷ rest;
    })

  -- parseChunk(data, version, width, kind)
  unfoldable pub parse_chunk : List ℕ → (version width : ℕ) → Kind → Result Chunk
  unfolding parse_fields
  parse_chunk b version width kind =
      (parse_fields (length b * 8) version width kind (open_reader b)).0
