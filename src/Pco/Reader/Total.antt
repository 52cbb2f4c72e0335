-- ===== src/Pco/Reader/Total.antt =====
-- `read` and what is built from it always give a number, of no more bits than were asked for.
use vortex_go.Base.{
  ℕ, String, zero, suc, ◌+◌, ◌-◌, ◌*◌, ◌/◌, ◌%◌, ◌^◌, ◌<◌, ◌≡◌, refl, inl, inr, ◌||◌, ◌==◌, Option,
  none, some, List, [], ◌∷◌, All, get_or, length, ltb, arith, Bool-cases,
}
use native.Mathlib.Nat.{pow-suc}
use vortex_go.Base.Powers.{two_pow-pos}
use vortex_go.Outcome.{failed, ok}
use vortex_go.Outcome.Sound.{Sound, Sound-ok, Sound-err, failed-ne-panic}
use vortex_go.Outcome.Always.{Always, Always-pure, Always-bind}
use vortex_go.Pco.Reader.{
  Reader, size, read, read_all, fail_on, stop_on_error, fail_with, check_padding, align, at_end,
  finish,
}
use vortex_go.Pco.Reader.Bits.{value_from}
use vortex_go.Pco.Reader.Stream.{read_short, read_enough}

value_from-lt : (b : List ℕ) (n pos : ℕ) → value_from b n pos < 2 ^ n
value_from-lt b zero pos = omega arith
value_from-lt b (suc n) pos =
    let bit_value : ℕ = get_or b (pos / 8) 0 / 2 ^ (pos % 8) in
    let p : 2 ^ suc n ≡ 2 ^ n * 2 = pow-suc 2 n in
    let ih : value_from b n (pos + 1) < 2 ^ n = value_from-lt b n (pos + 1) in
    let low : bit_value % 2 < 2 = omega arith in omega arith

-- A read gives a number below 2^n, and some reader.
abbrev Gives : ℕ → Reader → Type 0
Gives n r = (x : ℕ) × (t : Reader) × (read n r ≡ (ok x, t)) × (x < 2 ^ n)

Gives-by :
    (n : ℕ) (b : List ℕ) (pos : ℕ) (o : Option String)
    → Gives n (record { content = b; pos = pos; error = o })
unfolding read
Gives-by n b pos (some e) = (0, _, refl, two_pow-pos n)
Gives-by n b pos none = elim (Bool-cases (ltb 64 n || ltb (length b * 8 - pos) n)) [
  | inl bad ↦ (0, _, read_short n b pos bad, two_pow-pos n)
  | inr good ↦ (value_from b n pos, _, read_enough n b pos good, value_from-lt b n pos)
]

pub read_total : (n : ℕ) (r : Reader) → Gives n r
read_total n r = Gives-by n r.content r.pos r.error

pub read-Always : (n : ℕ) → Always (read n) (λ x. x < 2 ^ n)
read-Always n = record { each = λ r. let (x, t, e, lt) = read_total n r in rw e (Sound-ok x lt) }

pub read_all-Always :
    (n w : ℕ) → Always (read_all n w) (λ xs. (length xs ≡ n) × All (λ x. x < 2 ^ w) xs)
unfolding read_all
read_all-Always zero w = Always-pure [] (refl, tt)
read_all-Always (suc n) w = Always-bind (read w) _ (read-Always w) λ x lt.
    Always-bind (read_all n w) _ (read_all-Always n w)
      λ xs (len, all). Always-pure (x ∷ xs) (omega arith, (lt, all))

stop_by : (o : Option String) (r : Reader) → Sound (fail_on o r).0 (λ u. Unit {0})
unfolding fail_on
stop_by none r = Sound-ok tt tt
stop_by (some m) r = Sound-err (failed m) (failed-ne-panic m)

pub stop-Always : Always stop_on_error (λ u. Unit {0})
unfolding stop_on_error
stop-Always = record { each = λ r. stop_by r.error r }

fail_with-ok : (o : Option String) (m : String) (r : Reader) → (fail_with o m r).0 ≡ ok tt
unfolding fail_with
fail_with-ok none m r = refl
fail_with-ok (some c) m r = refl

check_padding-Always : (x : ℕ) → Always (check_padding x) (λ u. Unit {0})
unfolding check_padding
check_padding-Always x = record {
  each = λ r. elim (Bool-cases (x == 0)) [
    | inl e ↦ rw e (Sound-ok tt tt)
    | inr e ↦ rw (e, fail_with-ok r.error "nonzero padding" r) (Sound-ok tt tt)
  ];
}

pub align-Always : Always align (λ u. Unit {0})
unfolding align
align-Always = record {
  each = λ r.
      (Always-bind (read ((8 - r.pos % 8) % 8)) check_padding (read-Always _)
          (λ x lt. check_padding-Always x)).each
        r;
}

at_end-Always : Always at_end (λ u. Unit {0})
unfolding at_end
at_end-Always = record {
  each = λ r. elim (Bool-cases (r.pos == size r)) [
    | inl e ↦ rw e (Sound-ok tt tt)
    | inr e ↦ rw e (Sound-err (failed "trailing bytes") (failed-ne-panic _))
  ];
}

pub finish-Always : Always finish (λ u. Unit {0})
unfolding finish
finish-Always =
    Always-bind align _ align-Always
      λ u t. Always-bind stop_on_error _ stop-Always λ u' t'. at_end-Always
