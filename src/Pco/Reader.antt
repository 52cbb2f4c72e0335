-- ===== src/Pco/Reader.antt =====
-- `reader` of internal/pco/decode.go: bits of a buffer, with an error that sticks.
pub mod Bits
pub mod Stream
pub mod Total
use vortex_go.Base.{
  ℕ, String, zero, suc, ◌+◌, ◌-◌, ◌*◌, ◌/◌, ◌%◌, ◌^◌, min, Bool, true, false, not, ◌&&◌, ◌||◌,
  Option, none, some, List, [], ◌∷◌, get_or, length, ltb, leb, ◌==◌, if◌then◌else◌,
}
use vortex_go.Outcome.{Result, ok, err, failed, Action}
use vortex_go.Outcome.Act.{pure, raise, ◌>>=◌, ◌>>◌}

pub record Reader : Type 0 where
  pub content : List ℕ
  pub pos : ℕ
  -- the message of the error
  pub error : Option String

-- &reader{data: data}
abbrev pub open_reader : List ℕ → Reader
open_reader b = record { content = b; pos = 0; error = none }

-- io.ErrUnexpectedEOF
abbrev pub eof : String
eof = "unexpected EOF"

abbrev pub size : Reader → ℕ
size r = length r.content * 8

-- The loop of `read`, with `rounds` as fuel: every round takes a bit at least. The test before it
-- keeps pos/8 within the buffer. The bits that are taken lie above those of x, so that | is +.
unfoldable pub read_loop : (rounds : ℕ) → List ℕ → (pos done n x : ℕ) → ℕ × ℕ
read_loop zero b pos done n x = (x, pos)
read_loop (suc k) b pos done n x =
    let took = min (n - done) (8 - pos % 8) in
    let part = get_or b (pos / 8) 0 / 2 ^ (pos % 8) % 2 ^ took in
    let rest = read_loop k b (pos + took) (done + took) n (x + part * 2 ^ done) in
    if ltb done n then rest else (x, pos)

-- The read of n bits where there is no error yet. That pos is at most the size in bits, so that the
-- difference does not wrap around, is an invariant of the reader.
read_bits : ℕ → Action Reader ℕ
unfolding read_loop
read_bits n r =
    if ltb 64 n || ltb (size r - r.pos) n
    then (ok 0, record r { error = some eof })
    else let (x, pos) = read_loop n r.content r.pos 0 n 0 in (ok x, record r { pos = pos })

read_unless : Option String → ℕ → Action Reader ℕ
unfolding read_bits
read_unless none n r = read_bits n r
read_unless (some e) n r = (ok 0, r)

-- r.read(n), where n is not negative; it always gives a number
unfoldable pub read : ℕ → Action Reader ℕ
unfolding read_unless
read n r = read_unless r.error n r

-- Where the reader has no error yet, it gets this one.
unfoldable pub fail_with : Option String → String → Action Reader (Unit {0})
fail_with none e r = (ok tt, record r { error = some e })
fail_with (some c) e r = (ok tt, r)

unfoldable pub check_padding : ℕ → Action Reader (Unit {0})
unfolding fail_with
check_padding x r = if x == 0 then (ok tt, r) else fail_with r.error "nonzero padding" r

-- r.align()
unfoldable pub align : Action Reader (Unit {0})
unfolding read check_padding
align r = (read ((8 - r.pos % 8) % 8) >>= check_padding) r

unfoldable pub fail_on : Option String → Action Reader (Unit {0})
fail_on none = pure tt
fail_on (some m) = raise (failed m)

-- if r.err != nil { return r.err }
unfoldable pub stop_on_error : Action Reader (Unit {0})
unfolding fail_on
stop_on_error r = fail_on r.error r

unfoldable pub at_end : Action Reader (Unit {0})
at_end r = if r.pos == size r then (ok tt, r) else (err (failed "trailing bytes"), r)

-- r.finish()
unfoldable pub finish : Action Reader (Unit {0})
unfolding align stop_on_error at_end
finish = do align; stop_on_error; at_end

-- A slice of n elements, each read with w bits.
unfoldable pub read_all : (n w : ℕ) → Action Reader (List ℕ)
unfolding read
read_all zero w = pure []
read_all (suc n) w = do x ← read w; xs ← read_all n w; pure (x ∷ xs)
