-- ===== src/Encoding/Numeric/Patches/Overlay.antt =====
-- What `applyPatches` leaves in the bits that it overwrites.
use vortex_go.Base.{
  ℕ, zero, suc, ◌+◌, ◌-◌, ◌≤◌, ◌<◌, true, Option, none, some, List, [], ◌∷◌, ltb, leb, set, length,
  get_elem?, ◌≡◌, ◌≢◌, refl, sym, ap, subst, ◌∙◌, Bool-cases, inl, inr, arith, Option-cases, ◌||◌,
}
use vortex_go.Outcome.{ok, ok-injective, >>=-eq-ok}
use vortex_go.Encoding.Values.{Values, values, bits_of, with_bits}
use vortex_go.Encoding.Numeric.Patches.Rows.{
  rows_of, is_after, check_index, write_bits, write_row, patch_rows,
}

get_elem?-set {ℓ} :
    {A : Type ℓ} (xs : List A) (i : ℕ) (v : A) → i < length xs → get_elem? (set xs i v) i ≡ some v
get_elem?-set [] i v h = elim h [ ]
get_elem?-set (x ∷ xs) zero v h = refl
get_elem?-set (x ∷ xs) (suc i) v h = get_elem?-set xs i v (omega arith)

get_elem?-set_elsewhere {ℓ} :
    {A : Type ℓ} (xs : List A) (i j : ℕ) (v : A) → j ≢ i → get_elem? (set xs i v) j ≡ get_elem? xs j
get_elem?-set_elsewhere [] i j v h = refl
get_elem?-set_elsewhere (x ∷ xs) zero zero v h = elim (h refl) [ ]
get_elem?-set_elsewhere (x ∷ xs) zero (suc j) v h = refl
get_elem?-set_elsewhere (x ∷ xs) (suc i) zero v h = refl
get_elem?-set_elsewhere (x ∷ xs) (suc i) (suc j) v h =
    get_elem?-set_elsewhere xs i j v (λ e. h (ap suc e))

bits_of-with_bits : (b : List ℕ) (v : Values) → bits_of (with_bits b v) ≡ b
bits_of-with_bits b (values t n s fs) = refl

-- A successful write: the row takes the patch's bits, the others keep theirs.
record Written (out vals out' : Values) (row i : ℕ) : Type 0 where
  taken : get_elem? (bits_of out') row ≡ get_elem? (bits_of vals) i
  kept : (j : ℕ) → j ≢ row → get_elem? (bits_of out') j ≡ get_elem? (bits_of out) j

write_bits-Written :
    (out vals out' : Values) (row i : ℕ)
    → write_bits out vals row i ≡ ok out'
    → Written out vals out' row i
unfolding write_bits
write_bits-Written out vals out' row i h = elim (Option-cases (get_elem? (bits_of vals) i)) [
  | inl q ↦ cc (rw (q, write_bits) at h)
  | inr (b, q) ↦ elim (Bool-cases (ltb row (length (bits_of out)))) [
    | inr e ↦ cc (rw (q, e, write_bits) at h)
    | inl e ↦
        let same : with_bits (set (bits_of out) row b) out ≡ out' =
          ok-injective (rw (q, e, write_bits) at h) in
        let bits : bits_of out' ≡ set (bits_of out) row b =
          ap bits_of (sym same) ∙ bits_of-with_bits _ out in
        let fits : row < length (bits_of out) = ground arith in
        record {
          taken = rw (bits, q) (get_elem?-set (bits_of out) row b fits);
          kept = λ j k. rw bits (get_elem?-set_elsewhere (bits_of out) row j b k);
        }
  ]
]

check_index-ok :
    (offset rows : ℕ) (prev : Option ℕ) (x : ℕ) {u : Unit {0}}
    → check_index offset rows prev x ≡ ok u
    → (offset ≤ x) × (is_after prev x ≡ true)
unfolding check_index
check_index-ok offset rows prev x h = elim (Bool-cases (ltb x offset || leb rows (x - offset))) [
  | inl e ↦ cc (rw (e, check_index) at h)
  | inr e ↦ elim (Bool-cases (is_after prev x)) [
    | inl f ↦ (ground arith, f)
    | inr f ↦ cc (rw (e, f, check_index) at h)
  ]
]

module _ (offset : ℕ) (vals : Values) where
  -- Later patches keep the rows up to the last one that was patched.
  patch_rows-keeps :
      (xs : List ℕ) (prev i : ℕ) (out out' : Values)
      → patch_rows true offset vals (some prev) i xs out ≡ ok out'
      → (row : ℕ) → row + offset ≤ prev
      → get_elem? (bits_of out') row ≡ get_elem? (bits_of out) row
  unfolding patch_rows write_row is_after
  patch_rows-keeps [] prev i out out' h row le =
      ap (λ v. get_elem? (bits_of v) row) (sym (ok-injective h))
  patch_rows-keeps (x ∷ xs) prev i out out' h row le =
      let (u, p, k) = >>=-eq-ok (check_index offset (rows_of out) (some prev) x) _ h in
      let (v, q, l) = >>=-eq-ok (write_bits out vals (x - offset) i) _ k in
      let (above, after) = check_index-ok offset (rows_of out) (some prev) x p in
      let w = write_bits-Written out vals v (x - offset) i q in
      patch_rows-keeps xs x (i + 1) v out' l row (ground arith) ∙ w.kept row (λ e. ground arith)

  patched_from :
      (xs : List ℕ) (prev : Option ℕ) (i : ℕ) (out out' : Values)
      → patch_rows true offset vals prev i xs out ≡ ok out'
      → (k x : ℕ) → get_elem? xs k ≡ some x
      → (offset ≤ x) × (get_elem? (bits_of out') (x - offset) ≡ get_elem? (bits_of vals) (i + k))
  unfolding patch_rows write_row
  patched_from [] prev i out out' h k x g = cc
  patched_from (y ∷ xs) prev i out out' h zero x g =
      let (u, p, k) = >>=-eq-ok (check_index offset (rows_of out) prev y) _ h in
      let (v, q, l) = >>=-eq-ok (write_bits out vals (y - offset) i) _ k in
      let (above, after) = check_index-ok offset (rows_of out) prev y p in
      let w = write_bits-Written out vals v (y - offset) i q in
      let same : y ≡ x = cc in
      subst
        (λ z.
          (offset ≤ z) × (get_elem? (bits_of out') (z - offset) ≡ get_elem? (bits_of vals) (i + 0)))
        same
        (
          above,
          patch_rows-keeps xs y (i + 1) v out' l (y - offset) (omega arith)
              ∙ w.taken
              ∙ ap (get_elem? (bits_of vals)) (omega arith),
        )
  patched_from (y ∷ xs) prev i out out' h (suc j) x g =
      let (u, p, k) = >>=-eq-ok (check_index offset (rows_of out) prev y) _ h in
      let (v, q, l) = >>=-eq-ok (write_bits out vals (y - offset) i) _ k in
      let (above, same) = patched_from xs (some y) (i + 1) v out' l j x g in
      (above, same ∙ ap (get_elem? (bits_of vals)) (omega arith))

-- If the loop of `applyPatches` over numeric patches succeeds, then the k-th patch, whose absolute
-- index is x, is not before the offset, and row x - offset of the result has the bits of the k-th
-- patch value: no later patch has overwritten it.
pub patch_rows_lem :
    (offset : ℕ) (vals : Values) (xs : List ℕ) (out out' : Values)
    → patch_rows true offset vals none 0 xs out ≡ ok out'
    → (k x : ℕ) → get_elem? xs k ≡ some x
    → (offset ≤ x) × (get_elem? (bits_of out') (x - offset) ≡ get_elem? (bits_of vals) k)
patch_rows_lem offset vals xs out out' h k x g =
    let (above, same) = patched_from offset vals xs none 0 out out' h k x g in
    (above, same ∙ ap (get_elem? (bits_of vals)) (omega arith))
