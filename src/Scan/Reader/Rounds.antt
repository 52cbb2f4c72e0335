-- ===== src/Scan/Reader/Rounds.antt =====
-- The loop of `RecordReader.Next`: what a batch holds, and what was skipped before it.
use vortex_go.Base.{ℕ, ◌+◌, ◌≤◌, ◌<◌, ◌≡◌, refl, false, Option, none, some, List, All, arith, leb}
use vortex_go.Outcome.{Error, Result, ok, err, Action}
use vortex_go.Schema.{VortexType}
use vortex_go.Layout.{Layout}
use vortex_go.ArrayLib.{ArrayLib}
use vortex_go.Zone.Evaluate.{Table}
use vortex_go.Zone.Evaluate.Sound.{Values}
use vortex_go.Scan.Plan.{Piece}
use vortex_go.Scan.Reader.{
  Reader, Progress, skipped, produced, stopped, finished, stuck, locate, read_columns, delivered,
  collected, located, fetch,
}
use vortex_go.Scan.Reader.Predicates.{AnyFails, GoodPlans}
use vortex_go.Scan.Reader.Columns.{ReadyAt, ready_later, locate-Located, read_columns-ready}

module _ (lib : ArrayLib) {World : Type 0}
    (decode_layout : Layout → VortexType → Action World lib.Array)
    (decode_flat : Layout → VortexType → Action World lib.Array)
    (ctx_err : World → Option Error × World) (n : ℕ) (columns : ℕ → Values) where
  abbrev Scan : Type 0
  Scan = Reader lib.Array (Table lib)

  -- A reader in the middle of a scan of `n` rows: its zones are honest about the columns, and its
  -- cursors can go on.
  pub record Valid (r : Scan) : Type 0 where
    pub positive : 0 < r.batch_size
    pub all_rows : r.rows ≡ n
    pub good : GoodPlans lib decode_layout n columns r.plans
    pub ready : All (ReadyAt lib n r.plans r.pos) r.columns

  abbrev pub Failing : Scan → ℕ → Type 0
  Failing r = AnyFails lib decode_layout n columns r.predicates

  -- Every row from `a` up to `b` fails one of the predicates.
  abbrev pub NoneBetween : Scan → (a b : ℕ) → Type 0
  NoneBetween r a b = (row : ℕ) → a ≤ row → row < b → Failing r row

  -- What a round, or the whole loop, comes to from row `from` on.
  abbrev pub Comes : Scan → ℕ → Progress lib.Array → Scan → Type 0
  Comes r from (produced b) r' =
      (from ≤ b.offset)
      × (b.offset < b.end)
      × (b.end ≤ n)
      × (b.end ≤ b.offset + r.batch_size)
      × NoneBetween r from b.offset
      × (r'.pos ≡ b.end)
      × (r'.current ≡ some b)
      × Valid r'
  Comes r from skipped r' =
      (from < r'.pos)
      × (r'.pos ≤ n)
      × NoneBetween r from r'.pos
      × Valid r'
      × (r'.predicates ≡ r.predicates)
      × (r'.batch_size ≡ r.batch_size)
  Comes r from (stopped e) r' = Unit
  Comes r from finished r' = NoneBetween r from n
  Comes r from stuck r' = ⊥

  delivered-Comes :
      (c : Option Error) (r : Scan) (end : ℕ) (cols : List lib.Array) (w : World)
      → Valid r
      → r.pos < end
      → end ≤ n
      → end ≤ r.pos + r.batch_size
      → Comes r r.pos
          (delivered lib decode_layout decode_flat ctx_err c r end cols w).0
          (delivered lib decode_layout decode_flat ctx_err c r end cols w).1
  unfolding delivered
  delivered-Comes (some e) r end cols w v lt le size = tt
  delivered-Comes none r end cols w v lt le size = (
    omega arith,
    lt,
    le,
    size,
    (λ row a b. absurd (omega arith)),
    refl,
    refl,
    record {
      positive = v.positive;
      all_rows = v.all_rows;
      good = v.good;
      ready = ready_later lib n r.plans r.columns r.pos end (omega arith) v.ready;
    },
  )

  collected-Comes :
      (a : Result (List lib.Array)) (r : Scan) (end : ℕ) (w : World)
      → Valid r
      → r.pos < end
      → end ≤ n
      → end ≤ r.pos + r.batch_size
      → Comes r r.pos
          (collected lib decode_layout decode_flat ctx_err a r end w).0
          (collected lib decode_layout decode_flat ctx_err a r end w).1
  unfolding collected
  collected-Comes (err e) r end w v lt le size = tt
  collected-Comes (ok cols) r end w v lt le size =
      delivered-Comes (ctx_err w).0 r end cols (ctx_err w).1 v lt le size

  located-Comes :
      (l : Result (ℕ × List (ℕ × Piece))) (r : Scan) (end : ℕ) (ps : List (ℕ × Piece)) (w : World)
      → l ≡ ok (end, ps)
      → Valid r
      → r.pos < end
      → end ≤ n
      → end ≤ r.pos + r.batch_size
      → Comes r r.pos
          (located lib decode_layout decode_flat ctx_err l r w).0
          (located lib decode_layout decode_flat ctx_err l r w).1
  unfolding located
  located-Comes (err e) r end ps w q v lt le size = tt
  located-Comes (ok (end', ps')) r end ps w q v lt le size =
      let same : end' ≡ end = ground arith in
      let near : leb end' r.pos ≡ false = ground arith in
      let ready =
        read_columns-ready lib n r.plans decode_layout decode_flat ctx_err r.columns ps' r.pos end'
          r.pos w v.ready in
      rw near (
        collected-Comes _
          (record r {
            columns =
                (read_columns lib decode_layout decode_flat ctx_err r.columns ps' r.pos end' w).1;
          })
          end' _
          (record { positive = v.positive; all_rows = v.all_rows; good = v.good; ready = ready })
          (omega arith) (omega arith) (omega arith))

  pub fetch-Comes :
      (r : Scan) (end : ℕ) (w : World)
      → Valid r
      → r.pos < n
      → r.pos < end
      → end ≤ n
      → end ≤ r.pos + r.batch_size
      → Comes r r.pos
          (fetch lib decode_layout decode_flat ctx_err r end w).0
          (fetch lib decode_layout decode_flat ctx_err r end w).1
  unfolding fetch
  fetch-Comes r end w v below lt le size =
      let l = locate-Located lib n r.plans r.columns r.pos end v.ready below lt in
      located-Comes _ (record r { columns = (locate lib r.columns r.plans r.pos end).1 }) l.last
        l.pieces w l.answer
        (record { positive = v.positive; all_rows = v.all_rows; good = v.good; ready = l.ready })
        l.ahead (omega (arith, l.no_later)) (omega (arith, l.no_later))
