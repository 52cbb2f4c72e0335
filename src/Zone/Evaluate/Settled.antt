-- ===== src/Zone/Evaluate/Settled.antt =====
-- What a load leaves of a zone reference that has loaded nothing yet (`evaluate` of prune.go).
use vortex_go.Base.{
  ℕ, ◌≡◌, refl, ◌⊎◌, inl, inr, Bool, true, false, Bool-cases, Option-cases, none, some, List, arith,
  ◌==◌,
}
use vortex_go.Outcome.{Error, Result, ok, err, is_cancellation}
use vortex_go.Layout.{rows}
use vortex_go.ArrayLib.{ArrayLib}
use vortex_go.Zone.{ZoneRef}
use vortex_go.Zone.Evaluate.{Predicate, Table, give_up, accept, decoded}

module _ (lib : ArrayLib) where
  abbrev pub Ref : Type 0
  Ref = ZoneRef (Table lib)

  abbrev pub Answer : Type 0
  Answer = Result (ℕ × Bool)

  -- The table that was decoded, a struct of as many rows as its layout, is kept.
  pub record Kept (z : Ref) (loaded : Result lib.Array) (z' : Ref) : Type 0 where
    pub array : lib.Array
    pub fields : List lib.Array
    pub came : loaded ≡ ok array
    pub is_table : lib.as_struct array ≡ some fields
    pub fits : lib.len array ≡ rows z.node
    pub table : z'.values ≡ some (array, fields)
    pub same_len : z'.zone_len ≡ z.zone_len

  -- What is no table of the layout: a failure that is no cancellation, no struct, or other rows.
  abbrev pub IsUnfit : Ref → Result lib.Array → Type 0
  IsUnfit z loaded =
      ((c : Error) × (loaded ≡ err c) × (is_cancellation c ≡ false))
      ⊎ ((a : lib.Array) × (loaded ≡ ok a) × (lib.as_struct a ≡ none))
      ⊎ ((a : lib.Array) × (loaded ≡ ok a) × ((lib.len a == rows z.node) ≡ false))

  -- There are no statistics, or none that fit: nothing is kept, and the answer is the whole reference.
  pub record GaveUp (z : Ref) (loaded : Result lib.Array) (out : Answer) (z' : Ref) (again : Answer)
      : Type 0 where
    pub reason : (z.zone_len ≡ 0) ⊎ IsUnfit z loaded
    pub nothing_kept : z'.values ≡ none
    pub answer : out ≡ ok (z.end, false)
    pub answer_again : again ≡ ok (z.end, false)

  -- The load was cancelled, and the call fails with that; the zones keep their length.
  pub record Cancelled (z : Ref) (loaded : Result lib.Array) (out : Answer) (z' : Ref)
      : Type 0 where
    pub error : Error
    pub cancels : is_cancellation error ≡ true
    pub came : loaded ≡ err error
    pub answer : out ≡ err error
    pub nothing_kept : z'.values ≡ none
    pub same_len : z'.zone_len ≡ z.zone_len

  abbrev pub Settled : Ref → Result lib.Array → Answer × Ref → Type 0
  Settled z loaded (out, z') =
      (z'.loaded ≡ true)
      × (Kept z loaded z'
          ⊎ ((z'.zone_len ≡ 0) × (z'.end ≡ z.end) × GaveUp z loaded out z' (ok (z.end, false)))
          ⊎ Cancelled z loaded out z')

  give_up-Settled :
      (z : Ref) (loaded : Result lib.Array)
      → z.values ≡ none
      → IsUnfit z loaded
      → Settled z loaded (give_up lib z)
  unfolding give_up
  give_up-Settled z loaded empty unfit = (
    refl,
    inr (
        inl (
          refl,
          refl,
          record { reason = inr unfit; nothing_kept = empty; answer = refl; answer_again = refl },
        )),
  )

  pub decoded-Settled :
      (z : Ref) (pos : ℕ) (p : Predicate) (r : Result lib.Array)
      → z.values ≡ none
      → Settled z r (decoded lib z pos p r)
  unfolding decoded accept
  decoded-Settled z pos p (err c) empty = elim (Bool-cases (is_cancellation c)) [
    | inl t ↦ rw t (
      refl,
      inr (
          inr (record {
            error = c;
            cancels = t;
            came = refl;
            answer = refl;
            nothing_kept = empty;
            same_len = refl;
          })),
    )
    | inr f ↦ rw f (give_up-Settled z (err c) empty (inl (c, refl, f)))
  ]
  decoded-Settled z pos p (ok a) empty = elim (Option-cases (lib.as_struct a)) [
    | inl n ↦ rw n (give_up-Settled z (ok a) empty (inr (inl (a, refl, n))))
    | inr (fields, n) ↦ elim (Bool-cases (lib.len a == rows z.node)) [
      | inr f ↦ rw (n, f) (give_up-Settled z (ok a) empty (inr (inr (a, refl, f))))
      | inl t ↦
          rw (n, t)
            (
              refl,
              inl (record {
                array = a;
                fields = fields;
                came = refl;
                is_table = n;
                fits = ground arith;
                table = refl;
                same_len = refl;
              }),
            )
    ]
  ]
