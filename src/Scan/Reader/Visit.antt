-- ===== src/Scan/Reader/Visit.antt =====
-- What the zones of the predicates make of a row: how far a batch may go, and what may be skipped.
use vortex_go.Base.{
  ℕ, ◌≤◌, ◌<◌, ◌≡◌, ◌⊎◌, inl, inr, refl, Bool, true, false, Bool-cases, arith, ltb, leb,
}
use vortex_go.Outcome.{Result, ok, err, Action}
use vortex_go.Schema.{VortexType}
use vortex_go.Layout.{Layout}
use vortex_go.ArrayLib.{ArrayLib}
use vortex_go.Zone.{ZoneRef}
use vortex_go.Zone.Evaluate.{Predicate, Table, evaluate}
use vortex_go.Zone.Evaluate.Sound.{Values, matches}
use vortex_go.Zone.Evaluate.Steps.{Answer}
use vortex_go.Zone.Evaluate.Honest.{Honest, evaluate_sound, evaluate-Keeps}
use vortex_go.Scan.Reader.{answered, visit}

module _ (lib : ArrayLib) {World : Type 0}
    (decode_layout : Layout → VortexType → Action World lib.Array) (n : ℕ) where
  -- A zone of a column with these values, within the `n` rows of the file.
  pub record GoodZone (vs : Values) (z : ZoneRef (Table lib)) : Type 0 where
    pub honest : Honest lib decode_layout vs z
    pub inside : z.end ≤ n

  pub visit-GoodZone :
      (vs : Values) (z : ZoneRef (Table lib)) (pos : ℕ) (p : Predicate) (end skip : ℕ) (w : World)
      → GoodZone vs z
      → GoodZone vs (visit lib decode_layout z pos p end skip w).1
  unfolding visit
  visit-GoodZone vs z pos p end skip w g = elim (Bool-cases (ltb pos z.start)) [
    | inl t ↦ rw t g
    | inr f ↦ elim (Bool-cases (leb z.end pos)) [
      | inl t ↦ rw (f, t) g
      | inr h ↦
          let k = evaluate-Keeps lib decode_layout vs z pos p w in
          rw (f, h) (record { honest = k.honest g.honest; inside = rw k.same_end g.inside })
    ]
  ]

  -- `end'` and `skip'` after zones have been asked: the batch still advances, and each row that may
  -- now be skipped fails the predicate or could be skipped before.
  pub record Narrowed (Fails : ℕ → Type 0) (pos end skip end' skip' : ℕ) : Type 0 where
    pub ahead : pos < end'
    pub no_later : end' ≤ end
    pub grows : skip ≤ skip'
    pub inside : skip ≤ n → skip' ≤ n
    pub excludes : (r : ℕ) → pos ≤ r → r < skip' → (r < skip) ⊎ Fails r

  pub Narrowed-same :
      (Fails : ℕ → Type 0) (pos end skip : ℕ) → pos < end → Narrowed Fails pos end skip end skip
  Narrowed-same Fails pos end skip h = record {
    ahead = h;
    no_later = omega arith;
    grows = omega arith;
    inside = λ k. k;
    excludes = λ r a b. inl b;
  }

  pub Narrowed-trans :
      (P Q : ℕ → Type 0) (pos e s e' s' e'' s'' : ℕ)
      → Narrowed P pos e s e' s'
      → Narrowed Q pos e' s' e'' s''
      → Narrowed (λ r. P r ⊎ Q r) pos e s e'' s''
  Narrowed-trans P Q pos e s e' s' e'' s'' a b = record {
    ahead = b.ahead;
    no_later = omega (arith, a.no_later, b.no_later);
    grows = omega (arith, a.grows, b.grows);
    inside = λ k. b.inside (a.inside k);
    excludes = λ r x y. elim (b.excludes r x y) [
      | inr q ↦ inr (inr q)
      | inl k ↦ elim (a.excludes r x k) [ inl l ↦ inl l | inr q ↦ inr (inl q) ]
    ];
  }

  pub Narrowed-map :
      (P Q : ℕ → Type 0) (pos e s e' s' : ℕ)
      → ((r : ℕ) → P r → Q r)
      → Narrowed P pos e s e' s'
      → Narrowed Q pos e s e' s'
  Narrowed-map P Q pos e s e' s' f a = record {
    ahead = a.ahead;
    no_later = a.no_later;
    grows = a.grows;
    inside = a.inside;
    excludes = λ r x y. elim (a.excludes r x y) [ inl k ↦ inl k | inr q ↦ inr (f r q) ];
  }

  -- The rows of a column with these values that fail the predicate.
  abbrev pub Fails : Values → Predicate → ℕ → Type 0
  Fails vs p r = matches p (vs r) ≡ false

  answered-Narrowed :
      (vs : Values) (z : ZoneRef (Table lib)) (pos : ℕ) (p : Predicate) (end skip e s ze : ℕ)
      (skips : Bool)
      → answered lib decode_layout end skip (ok (ze, skips)) ≡ ok (e, s)
      → Answer lib vs z pos p ze skips
      → z.end ≤ n
      → pos < end
      → Narrowed (Fails vs p) pos end skip e s
  unfolding answered
  answered-Narrowed vs z pos p end skip e s ze true h a k lt = record {
    ahead = ground (arith, a.advances);
    no_later = ground arith;
    grows = ground arith;
    inside = λ l. ground (arith, a.inside);
    excludes = λ r x y. elim (Bool-cases (ltb r ze)) [
      | inl t ↦ inr (a.excludes refl r x (ground arith))
      | inr f ↦ inl (ground arith)
    ];
  }
  answered-Narrowed vs z pos p end skip e s ze false h a k lt = record {
    ahead = ground (arith, a.advances);
    no_later = ground arith;
    grows = ground arith;
    inside = λ l. ground arith;
    excludes = λ r x y. inl (ground arith);
  }

  pub visit-Narrowed :
      (vs : Values) (z : ZoneRef (Table lib)) (pos : ℕ) (p : Predicate) (end skip : ℕ) (w : World)
      (e s : ℕ)
      → (visit lib decode_layout z pos p end skip w).0 ≡ ok (e, s)
      → GoodZone vs z
      → pos < end
      → Narrowed (Fails vs p) pos end skip e s
  unfolding visit
  visit-Narrowed vs z pos p end skip w e s h g lt = elim (Bool-cases (ltb pos z.start)) [
    | inl t ↦
        let q = rw t at h in
        record {
          ahead = ground (arith, q, t);
          no_later = ground (arith, q);
          grows = ground (arith, q);
          inside = λ k. ground (arith, q);
          excludes = λ r x y. inl (ground (arith, q));
        }
    | inr f ↦ elim (Bool-cases (leb z.end pos)) [
      | inl t ↦
          let q = rw (f, t) at h in
          record {
            ahead = ground (arith, q);
            no_later = ground (arith, q);
            grows = ground (arith, q);
            inside = λ k. ground (arith, q);
            excludes = λ r x y. inl (ground (arith, q));
          }
      | inr k ↦ answer (evaluate lib decode_layout z pos p w).0 refl (rw (f, k) at h) f k
    ]
  ]
    where
      answer :
          (r : Result (ℕ × Bool))
          → (evaluate lib decode_layout z pos p w).0 ≡ r
          → answered lib decode_layout end skip r ≡ ok (e, s)
          → ltb pos z.start ≡ false
          → leb z.end pos ≡ false
          → Narrowed (Fails vs p) pos end skip e s
      answer (err c) q k a b = unfold answered in cc k
      answer (ok (ze, skips)) q k a b =
          answered-Narrowed vs z pos p end skip e s ze skips k
            (evaluate_sound lib decode_layout vs z pos p w ze skips g.honest (ground arith)
              (ground arith) q)
            g.inside lt
