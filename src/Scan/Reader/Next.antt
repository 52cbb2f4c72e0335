-- ===== src/Scan/Reader/Next.antt =====
-- `RecordReader.Next` as a whole: its loop ends, and between batches nothing is lost.
use vortex_go.Base.{
  ℕ, zero, suc, ◌+◌, ◌-◌, ◌≤◌, ◌<◌, ◌≡◌, inl, inr, refl, subst, true, false, Bool-cases, Option,
  none, some, arith, ltb, leb, min,
}
use vortex_go.Outcome.{Error, Result, ok, err, Action}
use vortex_go.Schema.{VortexType}
use vortex_go.Layout.{Layout}
use vortex_go.ArrayLib.{ArrayLib}
use vortex_go.Zone.Evaluate.{Table}
use vortex_go.Zone.Evaluate.Sound.{Values}
use vortex_go.Scan.Reader.{
  Reader, Progress, skipped, produced, stopped, finished, stuck, is_skipped, visit_predicates,
  proceed, entered, round, rounds,
}
use vortex_go.Scan.Reader.Visit.{Narrowed}
use vortex_go.Scan.Reader.Predicates.{AnyFails, visit_predicates-Visited}
use vortex_go.Scan.Reader.Columns.{ready_later, Ready-same_pieces}
use vortex_go.Scan.Reader.Rounds.{Valid, Failing, NoneBetween, Comes, fetch-Comes}

module _ (lib : ArrayLib) {World : Type 0}
    (decode_layout : Layout → VortexType → Action World lib.Array)
    (decode_flat : Layout → VortexType → Action World lib.Array)
    (ctx_err : World → Option Error × World) (n : ℕ) (columns : ℕ → Values) where
  abbrev Reads : Type 0
  Reads = Reader lib.Array (Table lib)

  abbrev pub IsValid : Reads → Type 0
  IsValid = Valid lib decode_layout decode_flat ctx_err n columns

  abbrev pub Leads : Reads → ℕ → Progress lib.Array → Reads → Type 0
  Leads = Comes lib decode_layout decode_flat ctx_err n columns

  abbrev Fails : Reads → ℕ → Type 0
  Fails = Failing lib decode_layout decode_flat ctx_err n columns

  proceed-Comes :
      (v : Result (ℕ × ℕ)) (r : Reads) (w : World)
      → IsValid r
      → r.pos < n
      → ((e s : ℕ)
          → v ≡ ok (e, s)
          → Narrowed lib decode_layout n
              (Fails r)
              r.pos
              (r.pos + min r.batch_size (r.rows - r.pos))
              r.pos
              e
              s)
      → Leads r r.pos
          (proceed lib decode_layout decode_flat ctx_err r v w).0
          (proceed lib decode_layout decode_flat ctx_err r v w).1
  unfolding proceed
  proceed-Comes (err e) r w v below h = tt
  proceed-Comes (ok (e, s)) r w v below h =
      let k = h e s refl in
      elim (Bool-cases (ltb r.pos s)) [
        | inr f ↦ rw f (
            fetch-Comes lib decode_layout decode_flat ctx_err n columns r e w v below k.ahead
              (omega (arith, k.no_later, v.all_rows)) (omega (arith, k.no_later)))
        | inl t ↦ rw t (
          ground arith,
          k.inside (omega arith),
          (λ row a b. elim (k.excludes row a b) [ inl x ↦ absurd (omega arith) | inr x ↦ x ]),
          record {
            positive = v.positive;
            all_rows = v.all_rows;
            good = v.good;
            ready = ready_later lib n r.plans r.columns r.pos s (ground arith) v.ready;
          },
          refl,
          refl,
        )
      ]

  entered-Comes :
      (c : Option Error) (r : Reads) (w : World)
      → IsValid r
      → r.pos < n
      → Leads r r.pos
          (entered lib decode_layout decode_flat ctx_err c r w).0
          (entered lib decode_layout decode_flat ctx_err c r w).1
  unfolding entered
  entered-Comes (some e) r w v below = tt
  entered-Comes none r w v below =
      let end = r.pos + min r.batch_size (r.rows - r.pos) in
      let out = visit_predicates lib decode_layout r.predicates r.plans r.pos end r.pos w in
      let k =
        visit_predicates-Visited lib decode_layout n columns r.predicates r.plans r.pos end r.pos w
          v.good (omega (arith, v.all_rows, v.positive)) in
      proceed-Comes out.0 (record r { plans = out.1 }) out.2
        (record {
          positive = v.positive;
          all_rows = v.all_rows;
          good = k.good;
          ready = Ready-same_pieces lib n r.plans out.1 r.columns r.pos k.same_pieces v.ready;
        })
        below (λ e s h. k.narrows e s h)

  -- Rows before `r1` are no concern of what comes later.
  widen :
      (p : Progress lib.Array) (r r1 r2 : Reads)
      → r.pos < r1.pos
      → NoneBetween lib decode_layout decode_flat ctx_err n columns r r.pos r1.pos
      → r1.predicates ≡ r.predicates
      → r1.batch_size ≡ r.batch_size
      → is_skipped p ≡ false
      → Leads r1 r1.pos p r2
      → Leads r r.pos p r2
  widen skipped r r1 r2 lt none_before ps bs h l = cc
  widen (produced b) r r1 r2 lt none_before ps bs h (from, order, le, size, none_here, at, cur, v) =
      (
        omega arith,
        order,
        le,
        omega arith,
        (λ row x y. elim (Bool-cases (ltb row r1.pos)) [
          | inl t ↦ none_before row x (ground arith)
          | inr f ↦
              subst (λ q. AnyFails lib decode_layout n columns q row) ps
                (none_here row (ground arith) y)
        ]),
        at,
        cur,
        v,
      )
  widen (stopped e) r r1 r2 lt none_before ps bs h l = tt
  widen finished r r1 r2 lt none_before ps bs h l = λ row x y. elim (Bool-cases (ltb row r1.pos)) [
    | inl t ↦ none_before row x (ground arith)
    | inr f ↦ subst (λ q. AnyFails lib decode_layout n columns q row) ps (l row (ground arith) y)
  ]
  widen stuck r r1 r2 lt none_before ps bs h l = l

  skipped_parts :
      (r : Reads) (from : ℕ) (p : Progress lib.Array) (r1 : Reads)
      → is_skipped p ≡ true
      → Leads r from p r1
      → Leads r from skipped r1
  skipped_parts r from skipped r1 h l = l
  skipped_parts r from (produced b) r1 h l = cc
  skipped_parts r from (stopped e) r1 h l = cc
  skipped_parts r from finished r1 h l = cc
  skipped_parts r from stuck r1 h l = cc

  -- The loop, with fuel for the rows left.
  rounds-Comes :
      (fuel : ℕ) (r : Reads) (w : World)
      → IsValid r
      → n - r.pos ≤ fuel
      → (is_skipped (rounds lib decode_layout decode_flat ctx_err fuel r w).0 ≡ false)
        × Leads r r.pos
            (rounds lib decode_layout decode_flat ctx_err fuel r w).0
            (rounds lib decode_layout decode_flat ctx_err fuel r w).1
  unfolding rounds round
  rounds-Comes zero r w v enough =
      let over : leb r.rows r.pos ≡ true = ground (arith, v.all_rows) in
      rw over (refl, (λ row x y. absurd (omega arith)))
  rounds-Comes (suc fuel) r w v enough = elim (Bool-cases (leb r.rows r.pos)) [
    | inl t ↦ rw t (refl, (λ row x y. absurd (ground (arith, v.all_rows))))
    | inr f ↦
        let out = round lib decode_layout decode_flat ctx_err r w in
        let k = entered-Comes (ctx_err w).0 r (ctx_err w).1 v (ground (arith, v.all_rows)) in
        elim (Bool-cases (is_skipped out.0)) [
          | inr g ↦ rw (f, g) (g, k)
          | inl g ↦
              let (lt, le, none_before, v1, ps, bs) = skipped_parts r r.pos out.0 out.1 g k in
              let (done, rest) = rounds-Comes fuel out.1 out.2 v1 (omega arith) in
              rw (f, g) (done, widen _ r out.1 _ lt none_before ps bs done rest)
        ]
  ]

  -- On a valid reader, the loop of Next ends before its fuel, the rows that are left, is spent. If it
  -- produces a batch, the batch is a nonempty range of rows of the file, of at most the batch size and
  -- not before the reader's position; it is the reader's current one, the position is its end and the
  -- reader is valid again; and every row skipped before it fails one of the predicates. If it reports
  -- the end, every row from the position on fails one of the predicates. (An error has no condition.)
  pub rounds_lem :
      (r : Reads) (w : World)
      → IsValid r
      → (is_skipped (rounds lib decode_layout decode_flat ctx_err (r.rows - r.pos) r w).0 ≡ false)
        × Leads r r.pos
            (rounds lib decode_layout decode_flat ctx_err (r.rows - r.pos) r w).0
            (rounds lib decode_layout decode_flat ctx_err (r.rows - r.pos) r w).1
  rounds_lem r w v = rounds-Comes (r.rows - r.pos) r w v (omega (arith, v.all_rows))
