-- ===== src/Encoding/Word.antt =====
-- The helpers on 64-bit words of internal/encoding/decode.go. A uint64 is a number below 2^64, and
-- an int64 is given by its bit pattern where the code goes to and fro between the two.
use vortex_go.Base.{
  ℕ, zero, suc, ◌+◌, ◌-◌, ◌*◌, ◌/◌, ◌%◌, ◌^◌, ◌≤◌, ◌<◌, ◌≡◌, refl, ap, List, [], ◌∷◌, length, arith,
  ltb, leb, ◌==◌, ◌||◌, Bool, if◌then◌else◌,
}
use native.Mathlib.Nat.{pow-suc}
use vortex_go.Outcome.{Result, ok, err, panic}
use vortex_go.Base.Int.{ℤ, pos, negsuc, pos_part, neg_part}

abbrev pub word : ℕ
word = 2 ^ 64

-- bitMask(w) is 2^w - 1, and x & bitMask(w) is x % 2^w.
abbrev pub low_bits : ℕ → ℕ → ℕ
low_bits x w = if leb 64 w then x % word else x % 2 ^ w

-- binary.LittleEndian on the first `w` bytes, where there are as many
unfoldable pub read_little : List ℕ → (w : ℕ) → ℕ
read_little b zero = 0
read_little [] (suc w) = 0
read_little (x ∷ b) (suc w) = x + 256 * read_little b w

-- binary.LittleEndian: the `w` low bytes of `x`
unfoldable pub write_little : (w : ℕ) → ℕ → List ℕ
write_little zero x = []
write_little (suc w) x = (x % 256) ∷ write_little w (x / 256)

-- asSigned(x, w): the low `8 w` bits of `x` as a signed number
unfoldable pub as_signed : ℕ → ℕ → ℤ
as_signed x w =
    let y = low_bits x (w * 8) in
    if ltb y (2 ^ (w * 8 - 1)) then pos y else negsuc (2 ^ (w * 8) - 1 - y)

-- (u >> 1) ^ uint64(-int64(u&1)): xor with all ones is the complement
unfoldable pub unzigzag : ℕ → ℕ
unzigzag u = if u % 2 == 0 then u / 2 else word - 1 - u / 2

is_word_width : ℕ → Bool
is_word_width w = w == 1 || w == 2 || w == 4 || w == 8

-- readWord(b, w): the widths of the switch need their bytes, and any other gives 0.
unfoldable pub read_word : List ℕ → (w : ℕ) → Result ℕ
unfolding is_word_width read_little
read_word b w =
    if is_word_width w then (if ltb (length b) w then err panic else ok (read_little b w)) else ok 0

-- writeWord(b, w, x) on `w` bytes: the widths of the switch are written, any other leaves the bytes.
unfoldable pub write_word : List ℕ → (w x : ℕ) → List ℕ
unfolding is_word_width write_little
write_word b w x = if is_word_width w then write_little w x else b

-- The zigzag code of a signed number.
unfoldable pub zigzag : ℤ → ℕ
zigzag (pos n) = 2 * n
zigzag (negsuc n) = 2 * n + 1

pub length-write_little : (w x : ℕ) → length (write_little w x) ≡ w
unfolding write_little
length-write_little zero x = refl
length-write_little (suc w) x = ap suc (length-write_little w _)

-- A number that fits in w bytes is read back from the w bytes that are written for it.
pub read_little-write_little : (w x : ℕ) → x < 256 ^ w → read_little (write_little w x) w ≡ x
unfolding read_little write_little
read_little-write_little zero x h = omega arith
read_little-write_little (suc w) x h =
    let p : 256 ^ suc w ≡ 256 ^ w * 256 = pow-suc 256 w in
    omega (arith, read_little-write_little w (x / 256) (omega (arith, p)))

-- For every int64, the decoder's formula, read as a signed number, undoes its zigzag code.
pub as_signed-unzigzag-zigzag :
    (x : ℤ) → pos_part x < 2 ^ 63 → neg_part x ≤ 2 ^ 63 → as_signed (unzigzag (zigzag x)) 8 ≡ x
unfolding as_signed unzigzag zigzag
as_signed-unzigzag-zigzag (pos n) h k = ground arith
as_signed-unzigzag-zigzag (negsuc n) h k = ground arith
