-- ===== src/Zone/Evaluate/Settles.antt =====
-- Two calls of `evaluate` (prune.go) on a zone reference, the second on what the first one left.
use vortex_go.Base.{
  sym, subst, ℕ, ◌≡◌, refl, ap, ◌∙◌, ◌⊎◌, inl, inr, true, false, Bool-cases, none, arith, ◌==◌,
}
use vortex_go.Outcome.{ok, Action}
use vortex_go.Schema.{VortexType}
use vortex_go.Layout.{Layout}
use vortex_go.ArrayLib.{ArrayLib}
use vortex_go.Zone.Evaluate.{Predicate, decoded, evaluate}
use vortex_go.Zone.Evaluate.Settled.{Ref, Answer, Kept, GaveUp, Cancelled, Settled, decoded-Settled}

module _ (lib : ArrayLib) {World : Type 0}
    (decode_layout : Layout → VortexType → Action World lib.Array) where
  -- Where nothing is left to load, a call changes nothing.
  idle :
      (z : Ref lib) (pos : ℕ) (p : Predicate) (w : World)
      → (z.zone_len ≡ 0) ⊎ (z.loaded ≡ true)
      → ((evaluate lib decode_layout z pos p w).1 ≡ z)
        × ((evaluate lib decode_layout z pos p w).2 ≡ w)
  unfolding evaluate
  idle z pos p w h = elim (Bool-cases (z.zone_len == 0)) [
    | inl t ↦ rw t (refl, refl)
    | inr f ↦ elim h [ inl e ↦ absurd (ground arith) | inr e ↦ rw (f, e) (refl, refl) ]
  ]

  no_zones :
      (z : Ref lib) (pos : ℕ) (p : Predicate) (w : World)
      → z.zone_len ≡ 0
      → (evaluate lib decode_layout z pos p w).0 ≡ ok (z.end, false)
  unfolding evaluate
  no_zones z pos p w h = let t : (z.zone_len == 0) ≡ true = ground arith in rw t refl

  abbrev Outcome : (z : Ref lib) → World → Answer lib × Ref lib → Answer lib → Type 0
  Outcome z w (out, z') again =
      Kept lib z (decode_layout z.node z.dtype w).0 z'
      ⊎ GaveUp lib z (decode_layout z.node z.dtype w).0 out z' again
      ⊎ Cancelled lib z (decode_layout z.node z.dtype w).0 out z'

  abbrev Twice :
      (z : Ref lib) → World → (pos' : ℕ) → Predicate → World → Answer lib × Ref lib → Type 0
  Twice z w pos' p' w' o =
      ((evaluate lib decode_layout o.1 pos' p' w').1 ≡ o.1)
      × ((evaluate lib decode_layout o.1 pos' p' w').2 ≡ w')
      × Outcome z w o (evaluate lib decode_layout o.1 pos' p' w').0

  settle :
      (z : Ref lib) (w : World) (o : Answer lib × Ref lib) (pos' : ℕ) (p' : Predicate) (w' : World)
      → Settled lib z (decode_layout z.node z.dtype w).0 o
      → Twice z w pos' p' w' o
  settle z w (out, z') pos' p' w' (loaded, h) =
      let (same, quiet) = idle z' pos' p' w' (inr loaded) in
      (
        same,
        quiet,
        elim h [
          | inl kept ↦ inl kept
          | inr (inl (len, end, g)) ↦ inr (
              inl (record {
                reason = g.reason;
                nothing_kept = g.nothing_kept;
                answer = g.answer;
                answer_again = no_zones z' pos' p' w' len ∙ ap (λ (e : ℕ). ok (e, false)) end;
              }))
          | inr (inr c) ↦ inr (inr c)
        ],
      )

  unzoned :
      (z : Ref lib) (w : World) (pos' : ℕ) (p' : Predicate) (w' : World)
      → z.zone_len ≡ 0
      → z.values ≡ none
      → Twice z w pos' p' w' (ok (z.end, false), z)
  unzoned z w pos' p' w' len empty =
      let (same, quiet) = idle z pos' p' w' (inl len) in
      (
        same,
        quiet,
        inr (
            inl (record {
              reason = inl len;
              nothing_kept = empty;
              answer = refl;
              answer_again = no_zones z pos' p' w' len;
            })),
      )

  first_call : (z : Ref lib) (pos : ℕ) (p : Predicate) (w : World) → Answer lib × Ref lib
  first_call z pos p w =
      ((evaluate lib decode_layout z pos p w).0, (evaluate lib decode_layout z pos p w).1)

  call_unzoned :
      (z : Ref lib) (pos : ℕ) (p : Predicate) (w : World)
      → (z.zone_len == 0) ≡ true
      → first_call z pos p w ≡ (ok (z.end, false), z)
  unfolding first_call evaluate
  call_unzoned z pos p w t = rw t refl

  call_fresh :
      (z : Ref lib) (pos : ℕ) (p : Predicate) (w : World)
      → (z.zone_len == 0) ≡ false
      → z.loaded ≡ false
      → first_call z pos p w ≡ decoded lib z pos p (decode_layout z.node z.dtype w).0
  unfolding first_call evaluate
  call_fresh z pos p w f fresh = rw (f, fresh) refl

  first_call-Twice :
      (z : Ref lib) (pos pos' : ℕ) (p p' : Predicate) (w w' : World)
      → z.loaded ≡ false
      → z.values ≡ none
      → Twice z w pos' p' w' (first_call z pos p w)
  unfolding first_call
  first_call-Twice z pos pos' p p' w w' fresh empty = elim (Bool-cases (z.zone_len == 0)) [
    | inl t ↦
        subst (Twice z w pos' p' w') (sym (call_unzoned z pos p w t))
          (unzoned z w pos' p' w' (ground arith) empty)
    | inr f ↦ subst (Twice z w pos' p' w') (sym (call_fresh z pos p w f fresh)) (
        settle z w _ pos' p' w'
          (decoded-Settled lib z pos p (decode_layout z.node z.dtype w).0 empty))
  ]

  -- For a zone reference that has loaded nothing yet, two calls of `evaluate`, at any rows, for any
  -- predicates and with the world in any state before each: the second one changes nothing, neither the
  -- reference nor the world, so the table is decoded once at most. And either the first call keeps the
  -- table, a struct of as many rows as its layout; or there are no zones or what was decoded is no such
  -- table, and both calls answer the whole reference, with no skip; or the load was cancelled, the first
  -- call fails with the cancellation, and the zones keep their length.
  pub evaluate-Settles :
      (z : Ref lib) (pos pos' : ℕ) (p p' : Predicate) (w w' : World)
      → z.loaded ≡ false
      → z.values ≡ none
      → ((evaluate lib decode_layout (evaluate lib decode_layout z pos p w).1 pos' p' w').1
          ≡ (evaluate lib decode_layout z pos p w).1)
        × ((evaluate lib decode_layout (evaluate lib decode_layout z pos p w).1 pos' p' w').2 ≡ w')
        × (Kept lib z (decode_layout z.node z.dtype w).0 (evaluate lib decode_layout z pos p w).1
            ⊎ GaveUp lib z
                (decode_layout z.node z.dtype w).0
                (evaluate lib decode_layout z pos p w).0
                (evaluate lib decode_layout z pos p w).1
                (evaluate lib decode_layout (evaluate lib decode_layout z pos p w).1 pos' p' w').0
            ⊎ Cancelled lib z
                (decode_layout z.node z.dtype w).0
                (evaluate lib decode_layout z pos p w).0
                (evaluate lib decode_layout z pos p w).1)
  unfolding first_call
  evaluate-Settles z pos pos' p p' w w' fresh empty =
      first_call-Twice z pos pos' p p' w w' fresh empty
