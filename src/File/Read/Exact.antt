-- ===== src/File/Read/Exact.antt =====
-- What `read` returns, if the source is what io.ReaderAt asks for.
use vortex_go.Base.{
  ℕ, zero, suc, ◌+◌, ◌-◌, ◌≤◌, ◌<◌, ◌≡◌, refl, sym, ap, subst, ◌∙◌, Bool, true, false, ◌||◌,
  Bool-cases, inl, inr, Option, none, some, List, ◌∷◌, ◌++◌, ltb, ◌==◌, min, arith,
}
use vortex_go.Base.Int.{ℤ, pos, negsuc}
use vortex_go.Outcome.{Error, ok, panic, ok-injective, refuse, refuse-ok}
use vortex_go.Outcome.Act.{pure, ◌>>=◌, ◌>>◌, lift, check_context, bind-eq-ok}
use vortex_go.File.Read.{
  ReadAnswer, bytes_from, short_read, whole_read, accept_count, accept_answer, max_read,
  chunk_count, read_chunk, read_chunks, read_from, read,
}

bytes_from-cong :
    (f g : ℕ → ℕ) (i j n : ℕ)
    → ((k : ℕ) → k < n → f (i + k) ≡ g (j + k))
    → bytes_from f i n ≡ bytes_from g j n
unfolding bytes_from
bytes_from-cong f g i j zero h = refl
bytes_from-cong f g i j (suc n) h =
    let first : f i ≡ g j =
      subst (λ a. f a ≡ g (j + 0)) (omega arith) (h 0 (omega arith)) ∙ ap g (omega arith) in
    let rest : bytes_from f (i + 1) n ≡ bytes_from g (j + 1) n =
      bytes_from-cong f g (i + 1) (j + 1) n
        (λ k lt. ap f (omega arith) ∙ h (k + 1) (omega arith) ∙ ap g (omega arith)) in
    rw (first, rest)

bytes_from-append :
    (f : ℕ → ℕ) (i m n : ℕ) → bytes_from f i m ++ bytes_from f (i + m) n ≡ bytes_from f i (m + n)
unfolding bytes_from
bytes_from-append f i zero n =
    let same : i + 0 ≡ i = omega arith in
    let all : n ≡ 0 + n = omega arith in ap (λ k. bytes_from f k n) same ∙ ap (bytes_from f i) all
bytes_from-append f i (suc m) n =
    let middle : i + suc m ≡ i + 1 + m = omega arith in
    let all : suc (m + n) ≡ suc m + n = omega arith in
    let rest : bytes_from f (i + 1) m ++ bytes_from f (i + suc m) n ≡ bytes_from f (i + 1) (m + n) =
      ap (λ k. bytes_from f (i + 1) m ++ bytes_from f k n) middle
      ∙ bytes_from-append f (i + 1) m n in
    ap (λ bs. f i ∷ bs) rest ∙ ap (bytes_from f i) all

bytes_from-join :
    (f : ℕ → ℕ) (offset a b c : ℕ)
    → a ≤ b
    → b ≤ c
    → bytes_from f (offset + a) (b - a) ++ bytes_from f (offset + b) (c - b)
      ≡ bytes_from f (offset + a) (c - a)
bytes_from-join f offset a b c h k =
    let middle : offset + b ≡ offset + a + (b - a) = omega arith in
    let whole : (b - a) + (c - b) ≡ c - a = omega arith in
    ap (λ j. bytes_from f (offset + a) (b - a) ++ bytes_from f j (c - b)) middle
    ∙ bytes_from-append f (offset + a) (b - a) (c - b)
    ∙ ap (bytes_from f (offset + a)) whole

short_read-fails : (o : Option (Bool × Error)) {b : List ℕ} → short_read o ≡ ok b → ⊥
unfolding short_read
short_read-fails none h = cc
short_read-fails (some (eof, e)) h = cc

whole_read-ok :
    (o : Option (Bool × Error)) (c : List ℕ) {b : List ℕ} → whole_read o c ≡ ok b → b ≡ c
unfolding whole_read
whole_read-ok none c h = cc
whole_read-ok (some (true, e)) c h = cc
whole_read-ok (some (false, e)) c h = cc

accept_count-ok :
    (c : ℤ) (want : ℕ) (a : ReadAnswer) {b : List ℕ}
    → accept_count c want a ≡ ok b
    → (c ≡ pos want) × (b ≡ bytes_from a.content 0 want)
unfolding accept_count short_read whole_read
accept_count-ok (negsuc k) want a h = cc
accept_count-ok (pos k) want a h = elim (Bool-cases (ltb want k)) [
  | inl t ↦ cc (rw (t, accept_count) at h)
  | inr f ↦ elim (Bool-cases (k == want)) [
    | inr g ↦ absurd (short_read-fails a.failure (rw (f, g, accept_count) at h))
    | inl g ↦ (ap pos (ground arith), whole_read-ok a.failure _ (rw (f, g, accept_count) at h))
  ]
]

module _ {World : Type 0} (ctx_err : World → Option Error × World)
    (read_at : (offset want : ℕ) → World → ReadAnswer × World) (byte : ℕ → ℕ) where
  -- The documented promise of io.ReaderAt: the bytes that it counts are the source's.
  abbrev pub IsSource : Type 0
  IsSource =
      (offset want : ℕ) (w : World) (i : ℕ)
      → (read_at offset want w).0.count ≡ pos want
      → i < want
      → (read_at offset want w).0.content i ≡ byte (offset + i)

  chunk_exact :
      (offset want : ℕ) (w : World) (b : List ℕ)
      → IsSource
      → (read_chunk ctx_err read_at offset want w).0 ≡ ok b
      → b ≡ bytes_from byte offset want
  unfolding read_chunk accept_answer
  chunk_exact offset want w b src h =
      let a : ReadAnswer = (read_at offset want w).0 in
      let (counted, same) = accept_count-ok a.count want a h in
      same
      ∙ bytes_from-cong a.content byte 0 offset want (λ k lt.
        let shift : 0 + k ≡ k = omega arith in ap a.content shift ∙ src offset want w k counted lt)

  -- What the rest of the loop does, after a round.
  abbrev RestExact : ℕ → Type 0
  RestExact n =
      (done offset length : ℕ) (w : World) (b : List ℕ)
      → IsSource
      → (read_chunks ctx_err read_at n done offset length w).0 ≡ ok b
      → b ≡ bytes_from byte (offset + done) (length - done)

  round_exact :
      (n done offset length : ℕ) (w : World) (b : List ℕ)
      → IsSource
      → RestExact n
      → ((check_context ctx_err
            >> (read_chunk ctx_err read_at (offset + done) (min (done + max_read) length - done)
                >>= λ c.
                    read_chunks ctx_err read_at n (min (done + max_read) length) offset length
                    >>= λ rest. pure (c ++ rest)))
          w).0
        ≡ ok b
      → done < length
      → b ≡ bytes_from byte (offset + done) (length - done)
  round_exact n done offset length w b src others_exact h lt =
      let end : ℕ = min (done + max_read) length in
      let (u, p, h1) = bind-eq-ok (check_context ctx_err) _ w h in
      let (c, q, h2) =
        bind-eq-ok (read_chunk ctx_err read_at (offset + done) (end - done)) _ _ h1 in
      let (rest, r, h3) = bind-eq-ok (read_chunks ctx_err read_at n end offset length) _ _ h2 in
      let first : c ≡ bytes_from byte (offset + done) (end - done) =
        chunk_exact (offset + done) (end - done) _ c src q in
      let others : rest ≡ bytes_from byte (offset + end) (length - end) =
        others_exact end offset length _ rest src r in
      sym (ok-injective h3)
      ∙ ap (λ x. x ++ rest) first
      ∙ ap (λ x. bytes_from byte (offset + done) (end - done) ++ x) others
      ∙ bytes_from-join byte offset done end length (omega arith) (omega arith)

  chunks_exact :
      (n done offset length : ℕ) (w : World) (b : List ℕ)
      → IsSource
      → (read_chunks ctx_err read_at n done offset length w).0 ≡ ok b
      → b ≡ bytes_from byte (offset + done) (length - done)
  unfolding read_chunks bytes_from
  chunks_exact zero done offset length w b src h =
      let (u, p, h1) = bind-eq-ok (lift (refuse (ltb done length) panic)) _ w h in
      let stop : ltb done length ≡ false = refuse-ok _ _ p in
      let none_left : length - done ≡ 0 = ground arith in rw none_left (sym (ok-injective h1))
  chunks_exact (suc n) done offset length w b src h0 = elim (Bool-cases (ltb done length)) [
    | inr stop ↦
        let none_left : length - done ≡ 0 = ground arith in
        rw none_left (sym (ok-injective (rw stop at h0)))
    | inl more ↦
        round_exact n done offset length w b src (chunks_exact n) (rw more at h0) (ground arith)
  ]

  -- Of a source that keeps the promise of io.ReaderAt, whatever else it does: if `read` returns, then
  -- the offset is not negative, the range lies within the file and is no longer than the limit, and
  -- the result is exactly the bytes of the range.
  pub read-Exact :
      (size : ℕ) (offset : ℤ) (length limit : ℕ) (w : World) (b : List ℕ)
      → IsSource
      → (read ctx_err read_at size offset length limit w).0 ≡ ok b
      → (start : ℕ) × (offset ≡ pos start)
        × (start + length ≤ size)
        × (length ≤ limit)
        × (b ≡ bytes_from byte start length)
  unfolding read read_from
  read-Exact size (negsuc k) length limit w b src h =
      let (u, p, h1) = bind-eq-ok (check_context ctx_err) _ w h in cc
  read-Exact size (pos offset) length limit w b src h =
      let (u, p, h1) = bind-eq-ok (check_context ctx_err) _ w h in
      let (u2, p2, h2) =
        bind-eq-ok (lift (refuse (ltb size offset || ltb (size - offset) length) _)) _ _ h1 in
      let (u3, p3, h3) = bind-eq-ok (lift (refuse (ltb limit length) _)) _ _ h2 in
      let (c, q, h4) =
        bind-eq-ok (read_chunks ctx_err read_at (chunk_count length) 0 offset length) _ _ h3 in
      let (u5, p5, h5) = bind-eq-ok (check_context ctx_err) _ _ h4 in
      let inside : (ltb size offset || ltb (size - offset) length) ≡ false = refuse-ok _ _ p2 in
      let short : ltb limit length ≡ false = refuse-ok _ _ p3 in
      let exact : c ≡ bytes_from byte (offset + 0) (length - 0) =
        chunks_exact (chunk_count length) 0 offset length _ c src q in
      let start : offset + 0 ≡ offset = omega arith in
      let all : length - 0 ≡ length = omega arith in
      (
        offset,
        refl,
        ground arith,
        ground arith,
        sym (ok-injective h5)
            ∙ exact
            ∙ ap (λ k. bytes_from byte k (length - 0)) start
            ∙ ap (bytes_from byte offset) all,
      )
