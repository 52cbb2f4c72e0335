-- ===== src/File/Read/Returns.antt =====
-- When `read` returns: a source that has all of its bytes, and a context that is not done.
use vortex_go.Base.{
  ◌*◌, ◌<◌, ◌==◌, ◌⊎◌, inl, inr, Bool-cases, some, List, sym, ℕ, zero, suc, ◌+◌, ◌-◌, ◌≤◌, ◌≡◌,
  refl, ap, ◌∙◌, Bool, true, false, ◌||◌, Option, none, [], ◌++◌, ltb, arith,
}
use vortex_go.Base.Int.{pos, pos_part}
use vortex_go.Outcome.{Error, ok, Action, refuse}
use vortex_go.Outcome.Act.{pure, lift, check_context, answer_of, ◌>>=◌, continue}
use vortex_go.File.Read.Exact.{IsSource, read-Exact}
use vortex_go.File.Read.{
  max_read, ReadAnswer, bytes_from, whole_read, accept_count, accept_answer, chunk_count,
  read_chunk, read_chunks, read_from, read,
}

-- An action that returns from every world.
pub record Returns {World A : Type 0} (m : Action World A) : Type 0 where
  pub at : (w : World) → (a : A) × ((m w).0 ≡ ok a)

module _ {World A : Type 0} where
  Returns-pure : (a : A) → Returns {World = World} (pure a)
  Returns-pure a = record { at = λ w. (a, refl) }

  Returns-bind :
      {B : Type 0} (m : Action World A) (f : A → Action World B)
      → Returns m
      → ((a : A) → Returns (f a))
      → Returns (m >>= f)
  Returns-bind m f h k = record {
    at = λ w.
        let (a, e) = h.at w in
        let (b, g) = (k a).at (m w).1 in (b, ap (λ r. (continue r f (m w).1).0) e ∙ g);
  }

Returns-refuse :
    {World : Type 0} (b : Bool) (c : Error)
    → b ≡ false
    → Returns {World = World} (lift (refuse b c))
Returns-refuse true c h = cc
Returns-refuse false c h = record { at = λ w. (tt, refl) }

-- An error that io.ReaderAt may return with all the bytes that it was asked for.
abbrev pub IsHarmless : Option (Bool × Error) → Type 0
IsHarmless o = (o ≡ none) ⊎ ((e : Error) × (o ≡ some (true, e)))

whole_read-harmless :
    (o : Option (Bool × Error)) (b : List ℕ) → IsHarmless o → whole_read o b ≡ ok b
unfolding whole_read
whole_read-harmless o b (inl h) = rw h refl
whole_read-harmless o b (inr (e, h)) = rw h refl

module _ {World : Type 0} (ctx_err : World → Option Error × World)
    (read_at : (offset want : ℕ) → World → ReadAnswer × World) (size : ℕ) where
  -- The context is never done, and what it is asked for within its `size` bytes the source reads, with
  -- no error or with io.EOF.
  pub record NeverFails : Type 0 where
    pub running : (w : World) → (ctx_err w).0 ≡ none
    pub counts :
        (offset want : ℕ) (w : World)
        → offset + want ≤ size
        → (read_at offset want w).0.count ≡ pos want
    pub silent :
        (offset want : ℕ) (w : World)
        → offset + want ≤ size
        → IsHarmless (read_at offset want w).0.failure

  module _ (n : NeverFails) where
    check_context-Returns : Returns (check_context ctx_err)
    unfolding check_context answer_of
    check_context-Returns = record {
      at = λ w. (tt, ap (λ o. (answer_of (o, (ctx_err w).1)).0) (n.running w));
    }

    read_chunk-Returns :
        (offset want : ℕ) → offset + want ≤ size → Returns (read_chunk ctx_err read_at offset want)
    unfolding read_chunk accept_answer accept_count
    read_chunk-Returns offset want inside = record {
      at = λ w.
          let a : ReadAnswer = (read_at offset want w).0 in
          let none_over : ltb want want ≡ false = ground arith in
          let all : (want == want) ≡ true = ground arith in
          let exact : (accept_count (pos want) want a ≡ ok (bytes_from a.content 0 want)) =
            rw (none_over, all)
              (whole_read-harmless a.failure (bytes_from a.content 0 want)
                (n.silent offset want w inside)) in
          (
            bytes_from a.content 0 want,
            ap (λ c. accept_count c want a) (n.counts offset want w inside) ∙ exact,
          );
    }

    read_chunks-Returns :
        (k done offset length : ℕ)
        → offset + length ≤ size
        → length ≤ done + k * max_read
        → Returns (read_chunks ctx_err read_at k done offset length)
    unfolding read_chunks
    read_chunks-Returns zero done offset length inside enough =
        Returns-bind _ _ (Returns-refuse _ _ (ground arith)) λ u. Returns-pure []
    read_chunks-Returns (suc k) done offset length inside enough =
        elim (Bool-cases (ltb done length)) [
          | inr stop ↦ rw stop (Returns-pure [])
          | inl more ↦
              let lt : done < length = ground arith in
              rw more (
                Returns-bind _ _ check_context-Returns λ u.
                  Returns-bind _ _ (read_chunk-Returns _ _ (omega arith)) λ b.
                    Returns-bind _ _ (read_chunks-Returns k _ offset length inside (omega arith))
                      λ rest. Returns-pure (b ++ rest))
        ]

    read-Returns :
        (offset length limit : ℕ)
        → offset + length ≤ size
        → length ≤ limit
        → Returns (read ctx_err read_at size (pos offset) length limit)
    unfolding read read_from
    read-Returns offset length limit inside short =
        let fits : (ltb size offset || ltb (size - offset) length) ≡ false = ground arith in
        let below : ltb limit length ≡ false = ground arith in
        Returns-bind _ _ check_context-Returns λ u. Returns-bind _ _ (Returns-refuse _ _ fits) λ u2.
          Returns-bind _ _ (Returns-refuse _ _ below) λ u3.
            Returns-bind _ _
              (read_chunks-Returns (chunk_count length) 0 offset length inside (omega arith))
              λ b. Returns-bind _ _ check_context-Returns λ u4. Returns-pure b

    -- If the context is never done, and the source keeps the promise of io.ReaderAt and reads what it is
    -- asked for within its size, with no error or with io.EOF, then `read` ends and returns, of every
    -- range within the file that is no longer than the limit, exactly the bytes.
    pub read-bytes_from :
        (byte : ℕ → ℕ) (offset length limit : ℕ) (w : World)
        → IsSource ctx_err read_at byte
        → offset + length ≤ size
        → length ≤ limit
        → (read ctx_err read_at size (pos offset) length limit w).0
          ≡ ok (bytes_from byte offset length)
    read-bytes_from byte offset length limit w src inside short =
        let (b, h) = (read-Returns offset length limit inside short).at w in
        let (start, same, within, le, exact) =
          read-Exact ctx_err read_at byte size (pos offset) length limit w b src h in
        let at : offset ≡ start = ap pos_part same in
        h ∙ ap ok (exact ∙ ap (λ (k : ℕ). bytes_from byte k length) (sym at))
