-- ===== src/Encoding/Binary/OnPair/Tokens.antt =====
-- The dictionary and the rows of `onpair` (internal/encoding/binary.go).
use vortex_go.Base.{
  ℕ, zero, suc, ◌+◌, ◌-◌, ◌≡◌, refl, sym, ap, subst, ◌∙◌, false, not, ◌||◌, some, List, [], ◌∷◌,
  ◌++◌, append_assoc, append-nil, take, drop, length, get_elem?, ltb, leb, ◌==◌, arith,
}
use vortex_go.Outcome.{
  Result, ok, failed, refuse, ◌>>=◌, ◌>>◌, >>=-eq-ok, refuse-eq-ok, ok-injective,
}
use vortex_go.Encoding.Values.{index}

-- `n` tokens are left, from i on, and the one before ended at `prev`.
unfoldable pub parse_tokens : (n i prev : ℕ) → (offsets dict : List ℕ) → Result (List (List ℕ))
parse_tokens zero i prev offsets dict = ok []
parse_tokens (suc n) i prev offsets dict = do
  a ← index offsets i
  b ← index offsets (i + 1)
  refuse (ltb a prev || ltb b a || ltb (length dict) b)
      (failed "OnPair dictionary offsets out of bounds")
  refuse (a == b) (failed "OnPair dictionary token is empty")
  rest ← parse_tokens n (i + 1) b offsets dict
  ok (take (b - a) (drop a dict) ∷ rest)

-- The loop over the codes of a row, after the bytes `v`.
unfoldable pub expand_tokens :
    (tokens : List (List ℕ)) → (expected : ℕ) → List ℕ → (v : List ℕ) → Result (List ℕ)
expand_tokens tokens expected [] v = ok v
expand_tokens tokens expected (c ∷ cs) v = do
  refuse (leb (length tokens) c) (failed "invalid OnPair token code")
  token ← index tokens c
  refuse (ltb expected (length v + length token)) (failed "OnPair exceeds declared length")
  expand_tokens tokens expected cs (v ++ token)

-- A row of the codes from a up to b.
unfoldable pub onpair_value :
    (tokens : List (List ℕ)) → (expected : ℕ) → (codes : List ℕ) → Result (List ℕ)
unfolding expand_tokens
onpair_value tokens expected codes = do
  v ← expand_tokens tokens expected codes []
  refuse (not (length v == expected)) (failed "OnPair decoded length mismatch")
  ok v

-- The bytes are those of the tokens that the codes name, one behind the other.
abbrev pub Spells : (tokens : List (List ℕ)) → List ℕ → List ℕ → Type 0
Spells tokens [] out = out ≡ []
Spells tokens (c ∷ cs) out =
    (token : List ℕ) × (rest : List ℕ) × (get_elem? tokens c ≡ some token)
    × (out ≡ token ++ rest)
    × Spells tokens cs rest

index-ok : {A : Type 0} (xs : List A) (i : ℕ) (x : A) → index xs i ≡ ok x → get_elem? xs i ≡ some x
index-ok [] i x h = cc
index-ok (y ∷ xs) zero x h = ap some (ok-injective h)
index-ok (y ∷ xs) (suc i) x h = index-ok xs i x h

expand_tokens-Spells :
    (tokens : List (List ℕ)) (expected : ℕ) (cs v out : List ℕ)
    → expand_tokens tokens expected cs v ≡ ok out
    → (rest : List ℕ) × (out ≡ v ++ rest) × Spells tokens cs rest
unfolding expand_tokens
expand_tokens-Spells tokens expected [] v out h =
    ([], sym (ok-injective h) ∙ sym (append-nil v), refl)
expand_tokens-Spells tokens expected (c ∷ cs) v out h =
    let (known, h1) = refuse-eq-ok (leb (length tokens) c) _ _ h in
    let (token, p, h2) = >>=-eq-ok (index tokens c) _ h1 in
    let (fits, h3) = refuse-eq-ok (ltb expected (length v + length token)) _ _ h2 in
    let (rest, same, spelled) = expand_tokens-Spells tokens expected cs (v ++ token) out h3 in
    (
      token ++ rest,
      same ∙ append_assoc v token rest,
      (token, rest, index-ok tokens c token p, refl, spelled),
    )

-- If a row is decoded, then its bytes are those of the tokens that its codes name, one behind the
-- other, and they are as many as the row declares.
pub onpair_value-Spells :
    (tokens : List (List ℕ)) (expected : ℕ) (codes out : List ℕ)
    → onpair_value tokens expected codes ≡ ok out
    → Spells tokens codes out × (length out ≡ expected)
unfolding onpair_value
onpair_value-Spells tokens expected codes out h =
    let (v, p, h1) = >>=-eq-ok (expand_tokens tokens expected codes []) _ h in
    let (exact, h2) = refuse-eq-ok (not (length v == expected)) _ _ h1 in
    let (rest, same, spelled) = expand_tokens-Spells tokens expected codes [] v p in
    let counted : length v ≡ expected = counts (length v) expected exact in
    subst (λ x. Spells tokens codes x × (length x ≡ expected)) (ok-injective h2)
      (subst (λ x. Spells tokens codes x) (sym same) spelled, counted)
  where
    counts : (m n : ℕ) → not (m == n) ≡ false → m ≡ n
    counts m n h = ground arith
