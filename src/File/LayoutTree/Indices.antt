-- ===== src/File/LayoutTree/Indices.antt =====
-- The loop of `parseLayout` over the segments of a layout.
use vortex_go.Base.{ℕ, zero, suc, ◌+◌, ◌<◌, ◌≡◌, subst, List, [], ◌∷◌, All, leb, arith}
use vortex_go.Outcome.{
  Result, ok, invalid, refuse, ◌>>=◌, ◌>>◌, >>=-eq-ok, refuse-eq-ok, ok-injective,
}

-- `n` segments are left, from i on, of a registry of `count` segments.
unfoldable pub parse_indices : (n i count : ℕ) → (ℕ → Result ℕ) → Result (List ℕ)
parse_indices zero i count segment = ok []
parse_indices (suc n) i count segment = do
  s ← segment i
  refuse (leb count s) (invalid "unknown segment")
  ss ← parse_indices n (i + 1) count segment
  ok (s ∷ ss)

pub parse_indices_bounds :
    (n i count : ℕ) (segment : ℕ → Result ℕ) (ss : List ℕ)
    → parse_indices n i count segment ≡ ok ss
    → All (λ s. s < count) ss
unfolding parse_indices
parse_indices_bounds zero i count segment ss h = subst (All (λ s. s < count)) (ok-injective h) tt
parse_indices_bounds (suc n) i count segment ss h =
    let (s, p, h1) = >>=-eq-ok (segment i) _ h in
    let (small, h2) = refuse-eq-ok (leb count s) _ _ h1 in
    let (rest, q, h3) = >>=-eq-ok (parse_indices n (i + 1) count segment) _ h2 in
    let first : s < count = ground arith in
    subst (All (λ k. k < count)) (ok-injective h3)
      (first, parse_indices_bounds n (i + 1) count segment rest q)
