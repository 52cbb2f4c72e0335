-- ===== src/Pco/Lists.antt =====
-- Lemmas on lists that the proofs on internal/pco share.
use vortex_go.Base.{
  ℕ, zero, suc, ◌-◌, min, take, drop, ◌<◌, ◌≡◌, refl, List, [], ◌∷◌, map, All, set, replicate,
  length, arith,
}
use vortex_go.Encoding.Values.{index}
use vortex_go.Outcome.{ok}
use vortex_go.Outcome.Sound.{Sound, Sound-ok}

module _ {A : Type 0} where
  -- An index within the list gives an element, with what holds of all of them.
  pub index-Sound :
      (P : A → Type 0) (xs : List A) (i : ℕ) → i < length xs → All P xs → Sound (index xs i) P
  index-Sound P [] i h all = elim h [ ]
  index-Sound P (x ∷ xs) zero h (p, ps) = Sound-ok x p
  index-Sound P (x ∷ xs) (suc i) h (p, ps) = index-Sound P xs i (omega arith) ps

  -- The same as an equation.
  pub index-eq-ok :
      (P : A → Type 0) (xs : List A) (i : ℕ)
      → i < length xs
      → All P xs
      → (a : A) × (index xs i ≡ ok a) × P a
  index-eq-ok P [] i h all = elim h [ ]
  index-eq-ok P (x ∷ xs) zero h (p, ps) = (x, refl, p)
  index-eq-ok P (x ∷ xs) (suc i) h (p, ps) = index-eq-ok P xs i (omega arith) ps

  pub All-true : (xs : List A) → All (λ x. Unit {0}) xs
  All-true [] = tt
  All-true (x ∷ xs) = (tt, All-true xs)

  pub All-imp : (P Q : A → Type 0) → ((x : A) → P x → Q x) → (xs : List A) → All P xs → All Q xs
  All-imp P Q f [] h = tt
  All-imp P Q f (x ∷ xs) (p, ps) = (f x p, All-imp P Q f xs ps)

  pub All-set : (P : A → Type 0) (xs : List A) (i : ℕ) (v : A) → P v → All P xs → All P (set xs i v)
  All-set P [] i v p h = tt
  All-set P (x ∷ xs) zero v p (q, qs) = (p, qs)
  All-set P (x ∷ xs) (suc i) v p (q, qs) = (q, All-set P xs i v p qs)

  pub All-replicate : (P : A → Type 0) (n : ℕ) (v : A) → P v → All P (replicate n v)
  All-replicate P zero v p = tt
  All-replicate P (suc n) v p = (p, All-replicate P n v p)

pub length-map : {A B : Type 0} (f : A → B) (xs : List A) → length (map f xs) ≡ length xs
length-map f [] = refl
length-map f (x ∷ xs) = omega (arith, length-map f xs)

module _ {A : Type 0} where
  pub length-take : (k : ℕ) (xs : List A) → length (take k xs) ≡ min k (length xs)
  length-take zero xs = omega arith
  length-take (suc k) [] = omega arith
  length-take (suc k) (x ∷ xs) = omega (arith, length-take k xs)

  pub length-drop : (k : ℕ) (xs : List A) → length (drop k xs) ≡ length xs - k
  length-drop zero xs = omega arith
  length-drop (suc k) [] = omega arith
  length-drop (suc k) (x ∷ xs) = omega (arith, length-drop k xs)
