-- ===== src/Scan/Reader/Kept.antt =====
-- A round of `RecordReader.Next` leaves the predicates and the batch size alone.
use vortex_go.Base.{
  ℕ, zero, suc, ◌+◌, ◌-◌, ◌≡◌, refl, ◌∙◌, Bool-cases, inl, inr, Option, none, some, List, ltb, leb,
  min,
}
use vortex_go.Outcome.{Error, Result, ok, err, Action}
use vortex_go.Schema.{VortexType}
use vortex_go.Layout.{Layout}
use vortex_go.ArrayLib.{ArrayLib}
use vortex_go.Zone.Evaluate.{Table, Predicate}
use vortex_go.Scan.Plan.{Piece}
use vortex_go.Scan.Reader.{
  Reader, Progress, is_skipped, visit_predicates, locate, delivered, collected, located, fetch,
  proceed, entered, round, rounds,
}

module _ (lib : ArrayLib) {World : Type 0}
    (decode_layout : Layout → VortexType → Action World lib.Array)
    (decode_flat : Layout → VortexType → Action World lib.Array)
    (ctx_err : World → Option Error × World) where
  abbrev Reads : Type 0
  Reads = Reader lib.Array (Table lib)

  -- What no round changes.
  abbrev pub kept : Reads → List (Predicate × ℕ) × ℕ
  kept r = (r.predicates, r.batch_size)

  abbrev Step : Type 0
  Step = Progress lib.Array × Reads × World

  delivered-kept :
      (c : Option Error) (r : Reads) (end : ℕ) (cols : List lib.Array) (w : World)
      → kept (delivered lib decode_layout decode_flat ctx_err c r end cols w).1 ≡ kept r
  unfolding delivered
  delivered-kept (some e) r end cols w = refl
  delivered-kept none r end cols w = refl

  collected-kept :
      (a : Result (List lib.Array)) (r : Reads) (end : ℕ) (w : World)
      → kept (collected lib decode_layout decode_flat ctx_err a r end w).1 ≡ kept r
  unfolding collected
  collected-kept (err e) r end w = refl
  collected-kept (ok cols) r end w = delivered-kept (ctx_err w).0 r end cols (ctx_err w).1

  located-kept :
      (l : Result (ℕ × List (ℕ × Piece))) (r : Reads) (w : World)
      → kept (located lib decode_layout decode_flat ctx_err l r w).1 ≡ kept r
  unfolding located
  located-kept (err e) r w = refl
  located-kept (ok (end, ps)) r w = elim (Bool-cases (leb end r.pos)) [
    | inl t ↦ rw t refl
    | inr n ↦ rw n (collected-kept _ _ end _)
  ]

  proceed-kept :
      (r : Reads) (v : Result (ℕ × ℕ)) (w : World)
      → kept (proceed lib decode_layout decode_flat ctx_err r v w).1 ≡ kept r
  unfolding proceed fetch
  proceed-kept r (err e) w = refl
  proceed-kept r (ok (end, skip)) w = elim (Bool-cases (ltb r.pos skip)) [
    | inl t ↦ rw t refl
    | inr n ↦ rw n (located-kept (locate lib r.columns r.plans r.pos end).0 _ w)
  ]

  entered-kept :
      (c : Option Error) (r : Reads) (w : World)
      → kept (entered lib decode_layout decode_flat ctx_err c r w).1 ≡ kept r
  unfolding entered
  entered-kept (some e) r w = refl
  entered-kept none r w =
      let end = r.pos + min r.batch_size (r.rows - r.pos) in
      let out = visit_predicates lib decode_layout r.predicates r.plans r.pos end r.pos w in
      proceed-kept (record r { plans = out.1 }) out.0 out.2

  pub rounds-kept :
      (fuel : ℕ) (r : Reads) (w : World)
      → kept (rounds lib decode_layout decode_flat ctx_err fuel r w).1 ≡ kept r
  unfolding rounds round
  rounds-kept zero r w = refl
  rounds-kept (suc fuel) r w =
      let out = round lib decode_layout decode_flat ctx_err r w in
      let one : kept out.1 ≡ kept r = entered-kept (ctx_err w).0 r (ctx_err w).1 in
      elim (Bool-cases (leb r.rows r.pos)) [
        | inl t ↦ rw t refl
        | inr n ↦ elim (Bool-cases (is_skipped out.0)) [
          | inl s ↦ rw (n, s) (rounds-kept fuel out.1 out.2 ∙ one)
          | inr s ↦ rw (n, s) one
        ]
      ]
