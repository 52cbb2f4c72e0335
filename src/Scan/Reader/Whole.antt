-- ===== src/Scan/Reader/Whole.antt =====
-- A whole scan: calls of `RecordReader.Next` until it returns false.
use vortex_go.Base.{
  ℕ, ◌+◌, ◌≤◌, ◌<◌, ◌≡◌, ◌⊎◌, inl, inr, ap, subst, Bool, true, false, Bool-cases, Option, none,
  some, List, [], ◌∷◌, arith, ltb,
}
use vortex_go.Base.Int.{one_ℤ, ◌≤ℤ◌}
use vortex_go.Outcome.{Error, Action}
use vortex_go.Schema.{VortexType}
use vortex_go.Layout.{Layout}
use vortex_go.ArrayLib.{ArrayLib}
use vortex_go.Zone.Evaluate.{Table}
use vortex_go.Zone.Evaluate.Sound.{Values}
use vortex_go.Scan.Reader.{Reader, Batch, produced, next}
use vortex_go.Scan.Reader.Predicates.{AnyFails}
use vortex_go.Scan.Reader.Next.{IsValid, Leads}
use vortex_go.Scan.Reader.Kept.{kept}
use vortex_go.Scan.Reader.Calls.{next-true, next-false}

-- The rows of a batch.
abbrev InBatch : {A : Type 0} → ℕ → Batch A → Type 0
InBatch row b = (b.offset ≤ row) × (row < b.end)

abbrev pub InSome : {A : Type 0} → ℕ → List (Batch A) → Type 0
InSome row [] = ⊥
InSome row (b ∷ bs) = InBatch row b ⊎ InSome row bs

-- Batches of `size` rows at most, none of them empty, in order and apart, from row `from` to row `n`.
abbrev pub AreOrdered : {A : Type 0} → (size n from : ℕ) → List (Batch A) → Type 0
AreOrdered size n from [] = from ≤ n
AreOrdered size n from (b ∷ bs) =
    (from ≤ b.offset) × (b.offset < b.end) × (b.end ≤ b.offset + size) × AreOrdered size n b.end bs

module _ (lib : ArrayLib) {World : Type 0}
    (decode_layout : Layout → VortexType → Action World lib.Array)
    (decode_flat : Layout → VortexType → Action World lib.Array)
    (ctx_err : World → Option Error × World) (n : ℕ) (columns : ℕ → Values) where
  abbrev Reads : Type 0
  Reads = Reader lib.Array (Table lib)

  abbrev Valid : Reads → Type 0
  Valid = IsValid lib decode_layout decode_flat ctx_err n columns

  abbrev Fails : Reads → ℕ → Type 0
  Fails r = AnyFails lib decode_layout n columns r.predicates

  abbrev call : Reads → World → Bool × Reads × World
  call = next lib decode_layout decode_flat ctx_err

  -- Calls of Next that return true, with the batch that each makes current, whatever happens to the
  -- world between them.
  pub data Run : Reads → List (Batch lib.Array) → Reads → Type 0 where
    start : {r : Reads} → Run r [] r
    step :
        {r : Reads} {bs : List (Batch lib.Array)} {last : Reads} (w : World) (b : Batch lib.Array)
        → (call r w).0 ≡ true
        → (call r w).1.current ≡ some b
        → Run (call r w).1 bs last
        → Run r (b ∷ bs) last

  abbrev Kept : Reads → Reads → Type 0
  Kept r r' =
      kept lib decode_layout decode_flat ctx_err r' ≡ kept lib decode_layout decode_flat ctx_err r

  -- The predicates decide what fails.
  Fails-Kept : (r r' : Reads) (row : ℕ) → Kept r r' → Fails r' row → Fails r row
  Fails-Kept r r' row k h =
      subst (λ ps. AnyFails lib decode_layout n columns ps row) (ap (λ x. x.0) k) h

  current_same :
      (a b : Batch lib.Array) (r : Reads) → r.current ≡ some a → r.current ≡ some b → a ≡ b
  current_same a b r p q = cc

  abbrev pub Scans : Reads → List (Batch lib.Array) → Type 0
  Scans r bs =
      AreOrdered r.batch_size n r.pos bs
      × ((row : ℕ) → r.pos ≤ row → row < n → InSome row bs ⊎ Fails r row)

  -- A batch in front of what the rest of the scan gives.
  one_more :
      (r r' : Reads) (b : Batch lib.Array) (bs : List (Batch lib.Array))
      → Leads lib decode_layout decode_flat ctx_err n columns r r.pos (produced b) r'
      → Kept r r'
      → Scans r' bs
      → Scans r (b ∷ bs)
  one_more r r' b bs (after, some_rows, le, size, skipped_fail, at_end, made, v) k (ordered, all) =
      let same : r'.batch_size ≡ r.batch_size = ap (λ x. x.1) k in
      (
        (
          after,
          some_rows,
          size,
          subst (λ s. AreOrdered s n b.end bs) same
              (subst (λ q. AreOrdered r'.batch_size n q bs) at_end ordered),
        ),
        λ row low high. elim (Bool-cases (ltb row b.offset)) [
          | inl t ↦ inr (skipped_fail row low (ground arith))
          | inr f ↦ elim (Bool-cases (ltb row b.end)) [
            | inl t ↦ let inside : InBatch row b = (ground arith, ground arith) in inl (inl inside)
            | inr g ↦
                let there : r'.pos ≤ row = ground arith in
                elim (all row there high) [
                  | inl x ↦ inl (inr x)
                  | inr x ↦ inr (Fails-Kept r r' row k x)
                ]
          ]
        ],
      )

  -- If a valid reader makes some batches current by calls of Next, one after the other, and a last
  -- call, while it is held, returns false and leaves no error, then the batches are not empty, of at
  -- most the batch size, in order and apart, from the reader's position on; and every row of the file
  -- from that position on is in one of them or fails one of the predicates.
  pub scan_lem :
      (r : Reads) (bs : List (Batch lib.Array)) (last : Reads) (w : World)
      → Valid r
      → Run r bs last
      → one_ℤ ≤ℤ last.refs
      → (call last w).0 ≡ false
      → (call last w).1.error ≡ none
      → r.pos ≤ n
      → Scans r bs
  scan_lem r [] last w v start held h e le = (
    le,
    (λ row a b.
        inr (next-false lib decode_layout decode_flat ctx_err n columns r w v held h e row a b)),
  )
  scan_lem r (b ∷ bs) last w v (step u b' t c rest) held h e le =
      let r' = (call r u).1 in
      let (made, l, k) = next-true lib decode_layout decode_flat ctx_err n columns r u v t in
      let (after, some_rows, inside, size, skipped_fail, at_end, current, v') = l in
      let same : made ≡ b = current_same made b r' current c in
      one_more r r' b bs
        (subst (λ x. Leads lib decode_layout decode_flat ctx_err n columns r r.pos (produced x) r')
          same l)
        k (scan_lem r' bs last w v' rest held h e (omega (arith, at_end, inside)))
