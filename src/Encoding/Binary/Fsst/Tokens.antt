-- ===== src/Encoding/Binary/Fsst/Tokens.antt =====
-- FSST read as a list of tokens: the loop undoes the coding of every such list.
use vortex_go.Base.{
  ℕ, zero, suc, ◌+◌, ◌*◌, ◌≤◌, ◌<◌, ◌≡◌, refl, sym, ap, ◌∙◌, false, some, List, [], ◌∷◌, ◌++◌,
  append_assoc, append-nil, take, drop, length, length-append, ltb, leb, ◌==◌, not, get_elem?,
  arith,
}
use vortex_go.Outcome.{Result, ok, err, ◌>>=◌}
use vortex_go.Encoding.Values.{index}
use vortex_go.Encoding.Binary.Fsst.{Symbols, escape, symbol_size, emit, expand_codes, expand_value}

-- A symbol of the table, or a byte as it is.
pub data Token : Type 0 where
  symbol literal : ℕ → Token

-- The codes of some tokens: a literal comes behind the escape code 255.
abbrev pub encode : List Token → List ℕ
encode [] = []
encode (symbol i ∷ ts) = i ∷ encode ts
encode (literal x ∷ ts) = 255 ∷ x ∷ encode ts

module _ (t : Symbols) where
  -- The bytes that a token stands for, where symbol i has `size` bytes.
  abbrev pub Expands : List Token → List ℕ → Type 0
  Expands [] b = b ≡ []
  Expands (symbol i ∷ ts) b =
      (size : ℕ) × (rest : List ℕ) × (i < 255)
      × (get_elem? t.sizes i ≡ some (suc size))
      × (length (take (suc size) (drop (i * 8) t.bytes)) ≡ suc size)
      × (b ≡ take (suc size) (drop (i * 8) t.bytes) ++ rest)
      × Expands ts rest
  Expands (literal x ∷ ts) b = (rest : List ℕ) × (b ≡ x ∷ rest) × Expands ts rest

  get_elem?-lt :
      {A : Type 0} (xs : List A) (i : ℕ) (a : A) → get_elem? xs i ≡ some a → i < length xs
  get_elem?-lt [] i a h = cc
  get_elem?-lt (x ∷ xs) zero a h = omega arith
  get_elem?-lt (x ∷ xs) (suc i) a h = omega (arith, get_elem?-lt xs i a h)

  symbol_size-some :
      (expected i size : ℕ)
      → get_elem? t.sizes i ≡ some (suc size)
      → symbol_size t expected i ≡ ok (suc size)
  unfolding symbol_size
  symbol_size-some expected i size h =
      let lt = get_elem?-lt t.sizes i (suc size) h in
      let known : leb (length t.sizes) i ≡ false = ground arith in
      let some_bytes : (suc size == 0) ≡ false = ground arith in
      rw (known, h, index, some_bytes) refl

  emit-ok :
      (expected i size : ℕ) (b : List ℕ)
      → get_elem? t.sizes i ≡ some (suc size)
      → length b + suc size ≤ expected
      → emit t expected i b ≡ ok (b ++ take (suc size) (drop (i * 8) t.bytes))
  unfolding emit
  emit-ok expected i size b h fits =
      let short : ltb expected (length b + suc size) ≡ false = ground arith in
      rw (symbol_size-some expected i size h, short) refl

  escape-ok :
      (expected x : ℕ) (b : List ℕ)
      → length b + 1 ≤ expected
      → escape t expected x b ≡ ok (b ++ (x ∷ []))
  unfolding escape
  escape-ok expected x b fits =
      let short : ltb expected (length b + 1) ≡ false = ground arith in rw short refl

  >>=-ok : {A : Type 0} (r : Result A) → (r >>= λ a. ok a) ≡ r
  >>=-ok (ok a) = refl
  >>=-ok (err e) = refl

  expand_codes-symbol :
      (expected i : ℕ) (cs b : List ℕ)
      → i < 255
      → expand_codes t expected (i ∷ cs) b
        ≡ (emit t expected i b >>= λ b'. expand_codes t expected cs b')
  unfolding expand_codes
  expand_codes-symbol expected i [] b lt =
      let plain : (i == 255) ≡ false = ground arith in rw plain (sym (>>=-ok (emit t expected i b)))
  expand_codes-symbol expected i (c ∷ cs) b lt =
      let plain : (i == 255) ≡ false = ground arith in rw (plain, expand_codes) refl

  expand_codes-encode :
      (expected : ℕ) (ts : List Token) (b out : List ℕ)
      → Expands ts out
      → length b + length out ≤ expected
      → expand_codes t expected (encode ts) b ≡ ok (b ++ out)
  unfolding expand_codes
  expand_codes-encode expected [] b out e fits =
      ap ok (sym (append-nil b) ∙ ap (λ x. b ++ x) (sym e))
  expand_codes-encode expected (symbol i ∷ ts) b out (size, rest, lt, known, whole, same, e) fits =
      let piece = take (suc size) (drop (i * 8) t.bytes) in
      let total : length out ≡ suc size + length rest =
        ap length same ∙ length-append piece rest ∙ ap (λ k. k + length rest) whole in
      let room : length b + suc size ≤ expected = omega arith in
      let longer : length (b ++ piece) ≡ length b + suc size =
        length-append b piece ∙ ap (λ k. length b + k) whole in
      let room' : length (b ++ piece) + length rest ≤ expected = omega arith in
      expand_codes-symbol expected i (encode ts) b lt
      ∙ ap (λ r. r >>= λ b'. expand_codes t expected (encode ts) b')
          (emit-ok expected i size b known room)
      ∙ expand_codes-encode expected ts (b ++ piece) rest e room'
      ∙ ap ok (append_assoc b piece rest ∙ ap (λ x. b ++ x) (sym same))
  expand_codes-encode expected (literal x ∷ ts) b out (rest, same, e) fits =
      let total : length out ≡ suc (length rest) = ap length same in
      let room : length b + 1 ≤ expected = omega arith in
      let longer : length (b ++ (x ∷ [])) ≡ length b + 1 = length-append b (x ∷ []) in
      let room' : length (b ++ (x ∷ [])) + length rest ≤ expected = omega arith in
      ap (λ r. r >>= λ b'. expand_codes t expected (encode ts) b') (escape-ok expected x b room)
      ∙ expand_codes-encode expected ts (b ++ (x ∷ [])) rest e room'
      ∙ ap ok (append_assoc b (x ∷ []) rest ∙ ap (λ z. b ++ z) (sym same))

  -- The codes of tokens that the table knows, symbols and escaped bytes in any order, are expanded to
  -- the bytes that the tokens stand for, if the declared length is the number of those bytes.
  pub expand_value-encode :
      (ts : List Token) (out : List ℕ)
      → Expands ts out
      → expand_value t (length out) (encode ts) ≡ ok out
  unfolding expand_value
  expand_value-encode ts out e =
      let done : expand_codes t (length out) (encode ts) [] ≡ ok out =
        expand_codes-encode (length out) ts [] out e (omega arith) in
      let exact : not (length out == length out) ≡ false = ground arith in rw (done, exact) refl
