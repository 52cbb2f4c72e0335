-- ===== src/Pco/Reader/Stream.antt =====
-- The reader as a stream of bits: `reader.read` takes bits off the front of those that are left.
use vortex_go.Base.{
  ℕ, String, zero, suc, ◌+◌, ◌-◌, ◌*◌, ◌^◌, ◌≤◌, ◌≡◌, refl, ap, ◌∙◌, inl, inr, true, false, ◌||◌,
  Option, none, some, List, ◌∷◌, take, drop, length, ltb, if◌then◌else◌, arith, Bool-cases,
}
use native.Mathlib.Nat.{sub-zero, zero-add, add-zero, suc-add}
use vortex_go.Outcome.{ok}
use vortex_go.Pco.Reader.{Reader, eof, size, read}
use vortex_go.Pco.Reader.Bits.{bit, bits_from, value, value_from, read_loop_lem}

-- What a reader stands for: the bits that are left, or nothing after an error.
abbrev view_of : Option String → List ℕ → (pos : ℕ) → Option (List ℕ)
view_of none b pos = some (bits_from b (length b * 8 - pos) pos)
view_of (some e) b pos = none

abbrev pub view : Reader → Option (List ℕ)
view r = view_of r.error r.content r.pos

-- Taking n bits, at most 64, off a stream: the number that they are, and what is left. A stream that
-- has too few is at an end for good, and gives zeros.
abbrev pub take_bits : ℕ → Option (List ℕ) → ℕ × Option (List ℕ)
take_bits n none = (0, none)
take_bits n (some bs) =
    if ltb 64 n || ltb (length bs) n then (0, none) else (value (take n bs), some (drop n bs))

-- The position is within the buffer.
abbrev pub IsWithin : Reader → Type 0
IsWithin r = r.pos ≤ size r

length-bits_from : (b : List ℕ) (n pos : ℕ) → length (bits_from b n pos) ≡ n
length-bits_from b zero pos = refl
length-bits_from b (suc n) pos = ap suc (length-bits_from b n (pos + 1))

take-bits_from : (b : List ℕ) (n m pos : ℕ) → take n (bits_from b (n + m) pos) ≡ bits_from b n pos
take-bits_from b zero m pos = refl
take-bits_from b (suc n) m pos =
    rw suc-add (ap (λ xs. bit b pos ∷ xs) (take-bits_from b n m (pos + 1)))

drop-bits_from :
    (b : List ℕ) (n m pos : ℕ) → drop n (bits_from b (n + m) pos) ≡ bits_from b m (pos + n)
drop-bits_from b zero m pos = rw (zero-add, add-zero) refl
drop-bits_from b (suc n) m pos =
    let e : pos + 1 + n ≡ pos + suc n = omega arith in
    rw suc-add (drop-bits_from b n m (pos + 1) ∙ ap (bits_from b m) e)

-- A reader with no error, at `pos`.
abbrev at : List ℕ → (pos : ℕ) → Reader
at b pos = record { content = b; pos = pos; error = none }

pub read_short :
    (n : ℕ) (b : List ℕ) (pos : ℕ)
    → (ltb 64 n || ltb (length b * 8 - pos) n) ≡ true
    → read n (at b pos) ≡ (ok 0, record { content = b; pos = pos; error = some eof })
unfolding read
read_short n b pos h = rw h refl

pub read_enough :
    (n : ℕ) (b : List ℕ) (pos : ℕ)
    → (ltb 64 n || ltb (length b * 8 - pos) n) ≡ false
    → read n (at b pos) ≡ (ok (value_from b n pos), at b (pos + n))
unfolding read
read_enough n b pos h =
    let one : value_from b n pos * 2 ^ 0 ≡ value_from b n pos = omega arith in
    rw (h, read_loop_lem n b pos 0 n 0 (omega arith) (omega arith), sub-zero, one, zero-add) refl

take_bits-enough :
    (n m : ℕ) (b : List ℕ) (pos : ℕ)
    → n ≤ 64
    → take_bits n (some (bits_from b (n + m) pos))
      ≡ (value_from b n pos, some (bits_from b m (pos + n)))
take_bits-enough n m b pos h =
    let counted : length (bits_from b (n + m) pos) ≡ n + m = length-bits_from b (n + m) pos in
    let fits : (ltb 64 n || ltb (n + m) n) ≡ false = ground arith in
    rw (counted, fits, take-bits_from b n m pos, drop-bits_from b n m pos) refl

-- What `read` and the stream have to agree on.
abbrev Agree : ℕ → Reader → Type 0
Agree n r =
    ((read n r).0 ≡ ok (take_bits n (view r)).0)
    × (view (read n r).1 ≡ (take_bits n (view r)).1)
    × IsWithin (read n r).1

Agree-short :
    (n : ℕ) (b : List ℕ) (pos : ℕ)
    → pos ≤ length b * 8
    → (ltb 64 n || ltb (length b * 8 - pos) n) ≡ true
    → Agree n (at b pos)
Agree-short n b pos h bad =
    rw (read_short n b pos bad, length-bits_from b (length b * 8 - pos) pos, bad) (refl, refl, h)

Agree-enough :
    (n : ℕ) (b : List ℕ) (pos : ℕ)
    → pos ≤ length b * 8
    → (ltb 64 n || ltb (length b * 8 - pos) n) ≡ false
    → Agree n (at b pos)
Agree-enough n b pos h good =
    let left : ℕ = length b * 8 - (pos + n) in
    let narrow : n ≤ 64 = ground arith in
    let fits : n ≤ length b * 8 - pos = ground arith in
    let e : length b * 8 - pos ≡ n + left = omega arith in
    rw (read_enough n b pos good, e, take_bits-enough n left b pos narrow) (refl, refl, omega arith)

Agree-by :
    (n : ℕ) (b : List ℕ) (pos : ℕ) (o : Option String)
    → pos ≤ length b * 8
    → Agree n (record { content = b; pos = pos; error = o })
unfolding read
Agree-by n b pos (some e) h = (refl, refl, h)
Agree-by n b pos none h = elim (Bool-cases (ltb 64 n || ltb (length b * 8 - pos) n)) [
  | inl bad ↦ Agree-short n b pos h bad
  | inr good ↦ Agree-enough n b pos h good
]

-- `read` on a reader is the taking of bits off the stream that the reader stands for, at the end and
-- after an error too, and keeps the position within the buffer.
pub read-take_bits :
    (n : ℕ) (r : Reader)
    → IsWithin r
    → ((read n r).0 ≡ ok (take_bits n (view r)).0)
      × (view (read n r).1 ≡ (take_bits n (view r)).1)
      × IsWithin (read n r).1
read-take_bits n r h = Agree-by n r.content r.pos r.error h
