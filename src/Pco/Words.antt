-- ===== src/Pco/Words.antt =====
-- Masks, ordered bits and floating point of internal/pco/decode.go. A uint64 is a number below 2^64,
-- an int64 is its bit pattern, and a mask of w ones is the remainder by 2^w.
pub mod Bounds
use vortex_go.Base.{ℕ, zero, suc, ◌+◌, ◌-◌, ◌*◌, ◌/◌, ◌%◌, ◌^◌, Bool, ltb, leb, ◌==◌, if◌then◌else◌}
use vortex_go.Encoding.Word.{word}

-- x & mask(w)
abbrev pub mask : ℕ → ℕ → ℕ
mask w x = x % 2 ^ w

-- x ^ uint64(1)<<(w-1)
unfoldable pub flip : ℕ → ℕ → ℕ
flip w x = if x / 2 ^ (w - 1) % 2 == 0 then x + 2 ^ (w - 1) else x - 2 ^ (w - 1)

-- int64(int16(x)) and int64(int32(x)), for w of 16 and of 32: the w low bits as a signed number
unfoldable pub narrow : ℕ → ℕ → ℕ
narrow w x = if x / 2 ^ (w - 1) % 2 == 0 then x % 2 ^ w else x % 2 ^ w + (2 ^ 64 - 2 ^ w)

-- orderedBits(v, w)
unfoldable pub ordered_bits : ℕ → ℕ → ℕ
unfolding flip
ordered_bits v w = if v / 2 ^ (w - 1) % 2 == 0 then 2 ^ w - 1 - v % 2 ^ w else flip w v

-- What the code uses of float64, of float32 and of half precision: the reading of bits, their
-- writing, the product with its rounding, and the sums and tests on float64.
pub record Floats : Type 1 where
  pub Float : Type 0
  pub from_bits16 : ℕ → Float
  pub from_bits32 : ℕ → Float
  pub from_bits64 : ℕ → Float
  pub to_bits16 : Float → ℕ
  pub to_bits32 : Float → ℕ
  pub to_bits64 : Float → ℕ
  pub mul16 : Float → Float → Float
  pub mul32 : Float → Float → Float
  pub mul64 : Float → Float → Float
  pub of_uint64 : ℕ → Float
  pub of_int64 : ℕ → Float
  pub ldexp_one : ℕ → Float
  pub neg : Float → Float
  pub abs : Float → Float
  pub add : Float → Float → Float
  pub leb_float : Float → Float → Bool
  pub is_nan : Float → Bool
  pub is_inf : Float → Bool
  pub is_zero : Float → Bool

module _ (floats : Floats) where
  open floats use {
    Float, from_bits16, from_bits32, from_bits64, to_bits16, to_bits32, to_bits64, mul16, mul32,
    mul64, of_uint64, neg,
  }

  -- floatValue(v, w)
  unfoldable pub float_value : ℕ → ℕ → Float
  float_value v w =
      if w == 16
      then from_bits16 (v % 2 ^ 16)
      else if w == 32
      then from_bits32 (v % 2 ^ 32)
      else from_bits64 v

  -- floatBits(v, w)
  unfoldable pub float_bits : Float → ℕ → ℕ
  float_bits v w = if w == 16 then to_bits16 v else if w == 32 then to_bits32 v else to_bits64 v

  -- floatOrdered(v, w)
  unfoldable pub float_ordered : Float → ℕ → ℕ
  unfolding float_bits flip
  float_ordered v w =
      let b = float_bits v w in if b / 2 ^ (w - 1) % 2 == 0 then flip w b else 2 ^ w - 1 - b % 2 ^ w

  -- floatProduct(a, b, w)
  unfoldable pub float_product : Float → Float → ℕ → Float
  float_product a b w = if w == 16 then mul16 a b else if w == 32 then mul32 a b else mul64 a b

  -- The bits of precision, one more than those that are stored; a width that is not in the map has 0.
  precision : ℕ → ℕ
  precision w = if w == 16 then 11 else if w == 32 then 24 else if w == 64 then 53 else 0

  -- The distance of v from the middle, 1 less on the side below.
  magnitude : ℕ → ℕ → ℕ
  magnitude v mid = if ltb v mid then mid - 1 - v else v - mid

  unsigned_float : (a w : ℕ) → Float
  unfolding float_value float_bits precision
  unsigned_float a w =
      let gpi : ℕ = 2 ^ precision w in
      if ltb a gpi
      then of_uint64 a
      else float_value (mask w ((float_bits (of_uint64 gpi) w + a + word - gpi) % word)) w

  -- intFloat(v, w)
  unfoldable pub int_float : ℕ → ℕ → Float
  unfolding magnitude unsigned_float
  int_float v w =
      let mid : ℕ = 2 ^ (w - 1) in
      let f = unsigned_float (magnitude v mid) w in if ltb v mid then neg f else f
