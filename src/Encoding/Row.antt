-- ===== src/Encoding/Row.antt =====
-- `values.at` of internal/encoding/decode.go: one row copied from another array of values.
use vortex_go.Base.{
  ℕ, ◌+◌, ◌*◌, ◌/◌, Bool, false, ◌||◌, Option, none, some, List, ◌++◌, length, set, take, drop, max,
  ltb, if◌then◌else◌,
}
use vortex_go.Outcome.{Result, ok, err, panic, ◌>>=◌}
use vortex_go.Encoding.Values.{
  Values, ValuesList, values, no_values, more_values, Slices, is_valid, index, slices, with_valid,
}

-- One slice of v.at(dst, src, i): a slice that is there takes the source's entry.
copy_entry {ℓ} :
    {A : Type ℓ} → Option (List A) → Option (List A) → (dst i : ℕ) → Result (Option (List A))
copy_entry none src dst i = ok none
copy_entry (some xs) none dst i = err panic
copy_entry (some xs) (some ys) dst i = elim (index ys i) [
  | err e ↦ err e
  | ok y ↦ if ltb dst (length xs) then ok (some (set xs dst y)) else err panic
]

copy_validity : Option (List Bool) → Option (List Bool) → (dst i : ℕ) → Result (Option (List Bool))
unfolding is_valid
copy_validity none src dst i = ok none
copy_validity (some m) src dst i = elim (is_valid src i) [
  | err e ↦ err e
  | ok b ↦ if ltb dst (length m) then ok (some (set m dst b)) else err panic
]

-- copy(v.wide[dst*w:(dst+1)*w], src.wide[i*w:(i+1)*w])
copy_wide : Option (List ℕ) → Option (List ℕ) → (n dst i : ℕ) → Result (Option (List ℕ))
copy_wide none src n dst i = ok none
copy_wide (some xs) none n dst i = err panic
copy_wide (some xs) (some ys) n dst i =
    let w = length xs / max n 1 in
    if ltb (length xs) ((dst + 1) * w) || ltb (length ys) ((i + 1) * w)
    then err panic
    else ok (some (take (dst * w) xs ++ (take w (drop (i * w) ys) ++ drop ((dst + 1) * w) xs)))

copy_slices : ℕ → Slices → Slices → (dst i : ℕ) → Result Slices
unfolding copy_entry copy_validity copy_wide
copy_slices n s r dst i = do
  b ← copy_entry s.bits r.bits dst i
  y ← copy_entry s.bytes r.bytes dst i
  w ← copy_wide s.wide r.wide n dst i
  v ← copy_validity s.valid r.valid dst i
  ok (record { bits = b; bytes = y; wide = w; valid = v })

-- v.at(dst, src, i), with the fields
unfoldable mutual
  unfolding copy_slices

  pub copy_row : Values → Values → (dst i : ℕ) → Result Values
  copy_row (values t n s fs) (values u k r gs) dst i = do
    s' ← copy_slices n s r dst i
    hs ← copy_rows fs gs dst i
    ok (values t n s' hs)

  pub copy_rows : ValuesList → ValuesList → (dst i : ℕ) → Result ValuesList
  copy_rows no_values gs dst i = ok no_values
  copy_rows (more_values f fs) no_values dst i = err panic
  copy_rows (more_values f fs) (more_values g gs) dst i = do
    h ← copy_row f g dst i
    hs ← copy_rows fs gs dst i
    ok (more_values h hs)

-- v.valid[i] = false
unfoldable pub clear_row : Values → ℕ → Result Values
clear_row v i = elim (slices v).valid [
  | none ↦ err panic
  | some m ↦ if ltb i (length m) then ok (with_valid (some (set m i false)) v) else err panic
]
