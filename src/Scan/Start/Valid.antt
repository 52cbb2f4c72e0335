-- ===== src/Scan/Start/Valid.antt =====
-- A reader that `NewRecordReader` returns can be scanned: it is as `Next` wants it.
use vortex_go.Base.{
  ℕ, zero, suc, ◌≤◌, ◌<◌, ◌≡◌, refl, ap, subst, String, Option, none, List, [], ◌∷◌, map, length,
  arith, All,
}
use vortex_go.Base.Int.{ℤ, pos, negsuc}
use vortex_go.Outcome.{Error, ok, >>=-eq-ok, ok-injective, Action}
use vortex_go.Schema.{VortexType}
use vortex_go.Schema.Arrow.{ArrowField}
use vortex_go.Layout.{Layout}
use vortex_go.ArrayLib.{ArrayLib}
use vortex_go.Wire.{ProtoWire}
use vortex_go.Encoding.Values.{index}
use vortex_go.Zone.Evaluate.{Predicate, Table}
use vortex_go.Zone.Evaluate.Sound.{Values}
use vortex_go.Scan.Plan.Tiling.{Covers, ZonesWithin}
use vortex_go.Scan.Cursor.{Ready}
use vortex_go.Scan.Reader.{Reader, plan_at}
use vortex_go.Scan.Reader.Read.{Cursor}
use vortex_go.Zone.{ZoneRef}
use vortex_go.Zone.Evaluate.Honest.{Honest}
use vortex_go.Scan.Plan.{ColumnPlan}
use vortex_go.Scan.Reader.Visit.{GoodZone}
use vortex_go.Scan.Reader.Next.{IsValid}
use vortex_go.Scan.Start.{
  ScanOptions, ScanPredicate, compare_op, positive_batch, fresh_cursor, add_columns, dtype_at,
  add_predicates, all_names, start_reader,
}
use vortex_go.Scan.Start.Plans.{NamedPlans, get_plan, AllCover, get_plan-Got}
use vortex_go.File.Open.Parts.{File, num_rows}

positive_batch-pos : (z : ℤ) (n : ℕ) → positive_batch z ≡ ok n → 0 < n
unfolding positive_batch
positive_batch-pos (negsuc k) n h = cc
positive_batch-pos (pos zero) n h = subst (λ m. 0 < m) (ok-injective h) (omega arith)
positive_batch-pos (pos (suc k)) n h = subst (λ m. 0 < m) (ok-injective h) (omega arith)

module _ (lib : ArrayLib) (w : ProtoWire) {DataType : Type 0} (f : File DataType)
    (field_indices : String → List ℕ) where
  abbrev Plans : Type 0
  Plans = NamedPlans (Table lib)

  abbrev Covered : Plans → Type 0
  Covered = AllCover w f.root f.dtype field_indices

  -- A cursor at the start of one of `n` plans.
  abbrev AtStart : (n : ℕ) → Cursor lib.Array → Type 0
  AtStart n c = (c.plan < n) × (c.index ≡ 0)

  abbrev Columns : Type 0
  Columns = Plans × List (Cursor lib.Array) × List (ArrowField DataType)

  abbrev Added : (before : ℕ) → Columns → Type 0
  Added before (plans, cursors, columns) =
      Covered plans × (before ≤ length plans) × All (AtStart (length plans)) cursors

  add_columns-Added :
      (names : List String) (plans : Plans) (out : Columns)
      → Covered plans
      → add_columns lib w f field_indices names plans ≡ ok out
      → Added (length plans) out
  unfolding add_columns fresh_cursor
  add_columns-Added [] plans out t h =
      subst (Added (length plans)) (ok-injective h) (t, omega arith, tt)
  add_columns-Added (name ∷ names) plans out t h =
      let ((k, i, plans1), p, h1) =
        >>=-eq-ok (get_plan w f.root f.dtype field_indices plans name) _ h in
      let got = get_plan-Got w f.root f.dtype field_indices plans name k i plans1 t p in
      let (column, q, h2) = >>=-eq-ok (index f.schema i) _ h1 in
      let ((plans2, cursors, columns), r, h3) =
        >>=-eq-ok (add_columns lib w f field_indices names plans1) _ h2 in
      let (tile, grows, starts) =
        add_columns-Added names plans1 (plans2, cursors, columns) got.cover r in
      let there : k < length plans2 = omega (arith, got.there) in
      let le : length plans ≤ length plans2 = omega (arith, got.grows) in
      subst (Added (length plans)) (ok-injective h3) (tile, le, ((there, refl), starts))

  add_predicates-Covered :
      (ps : List ScanPredicate) (plans : Plans) (out : Plans × List (Predicate × ℕ))
      → Covered plans
      → add_predicates lib w f field_indices ps plans ≡ ok out
      → Covered out.0 × (length plans ≤ length out.0)
  unfolding add_predicates
  add_predicates-Covered [] plans out t h =
      subst (λ o. Covered o.0 × (length plans ≤ length o.0)) (ok-injective h) (t, omega arith)
  add_predicates-Covered (p ∷ ps) plans out t h =
      let (op, q, h1) = >>=-eq-ok (compare_op p.op) _ h in
      let ((k, i, plans1), r, h2) =
        >>=-eq-ok (get_plan w f.root f.dtype field_indices plans p.column) _ h1 in
      let got = get_plan-Got w f.root f.dtype field_indices plans p.column k i plans1 t r in
      let (typ, s, h3) = >>=-eq-ok (dtype_at lib w f field_indices i) _ h2 in
      let ((plans2, rest), u, h4) =
        >>=-eq-ok (add_predicates lib w f field_indices ps plans1) _ h3 in
      let (tile, grows) = add_predicates-Covered ps plans1 (plans2, rest) got.cover u in
      let le : length plans ≤ length plans2 = omega (arith, got.grows) in
      subst (λ o. Covered o.0 × (length plans ≤ length o.0)) (ok-injective h4) (tile, le)

  plan_at-Covers :
      (plans : Plans) (k : ℕ)
      → Covered plans
      → k < length plans
      → Covers 0 (num_rows f) (num_rows f) (plan_at (map (λ p. p.1) plans) k)
  unfolding plan_at
  plan_at-Covers [] k t lt = absurd (omega arith)
  plan_at-Covers (p ∷ ps) zero (t, ts) lt = t
  plan_at-Covers (p ∷ ps) (suc k) (t, ts) lt = plan_at-Covers ps k ts (omega arith)

  plan_at-zones :
      (plans : Plans) (k : ℕ)
      → Covered plans
      → ZonesWithin 0 (num_rows f) (plan_at (map (λ p. p.1) plans) k).zones
  unfolding plan_at
  plan_at-zones [] zero t = tt
  plan_at-zones [] (suc k) t = tt
  plan_at-zones (p ∷ ps) zero (t, ts) = t.zones_within
  plan_at-zones (p ∷ ps) (suc k) (t, ts) = plan_at-zones ps k ts

  abbrev ReadyIn : Plans → Cursor lib.Array → Type 0
  ReadyIn plans c = Ready (num_rows f) (plan_at (map (λ p. p.1) plans) c.plan).pieces 0 c.index

  cursors_start :
      (n : ℕ) (plans : Plans) (cs : List (Cursor lib.Array))
      → Covered plans
      → n ≤ length plans
      → All (AtStart n) cs
      → All (ReadyIn plans) cs
  cursors_start n plans [] t le h = tt
  cursors_start n plans (c ∷ cs) t le ((lt, first), h) = (
    rw first (record {
      first = 0;
      first_le = omega arith;
      tiles = (plan_at-Covers plans c.plan t (omega arith)).tiles;
    }),
    cursors_start n plans cs t le h,
  )

module _ (lib : ArrayLib) (w : ProtoWire) {DataType : Type 0} (f : File DataType)
    (field_indices : String → List ℕ) {World : Type 0}
    (decode_layout : Layout → VortexType → Action World lib.Array)
    (decode_flat : Layout → VortexType → Action World lib.Array)
    (ctx_err : World → Option Error × World) (columns : ℕ → Values) where
  -- The zones of the plans tell the truth about the columns.
  abbrev pub HonestPlans : List (ColumnPlan (Table lib)) → Type 0
  HonestPlans plans = (i : ℕ) → All (Honest lib decode_layout (columns i)) (plan_at plans i).zones

  zones-good :
      (vs : Values) (zs : List (ZoneRef (Table lib)))
      → All (Honest lib decode_layout vs) zs
      → ZonesWithin 0 (num_rows f) zs
      → All (GoodZone lib decode_layout (num_rows f) vs) zs
  zones-good vs [] h w = tt
  zones-good vs (z ∷ zs) (h, hs) ((from, at, to), ws) =
      (record { honest = h; inside = to }, zones-good vs zs hs ws)

  -- If NewRecordReader returns a reader, and the tables of its zones tell the truth about the columns,
  -- then the reader has one reference, stands at row 0 with no batch and no error, and is valid: its
  -- batch size is positive, its rows are the file's, its zones lie within them, and every column's pieces
  -- tile them from the cursor on.
  pub start_reader-IsValid :
      (opts : ScanOptions) (schema : List (ArrowField DataType)) (r : Reader lib.Array (Table lib))
      → start_reader lib w f field_indices opts ≡ ok (schema, r)
      → HonestPlans r.plans
      → IsValid lib decode_layout decode_flat ctx_err (num_rows f) columns r
        × (r.refs ≡ pos 1)
        × (r.pos ≡ 0)
        × (r.current ≡ none)
        × (r.error ≡ none)
  unfolding start_reader
  start_reader-IsValid opts schema r h good =
      let (batch, p, h1) = >>=-eq-ok (positive_batch opts.batch_size) _ h in
      let ((plans1, cursors, fields), q, h2) =
        >>=-eq-ok
          (add_columns lib w f field_indices (all_names lib w f field_indices opts.columns) []) _
          h1 in
      let ((plans2, predicates), s, h3) =
        >>=-eq-ok (add_predicates lib w f field_indices opts.predicates plans1) _ h2 in
      let (tile, none_lost, starts) =
        add_columns-Added lib w f field_indices (all_names lib w f field_indices opts.columns) []
          (plans1, cursors, fields) tt q in
      let (tile2, grows) =
        add_predicates-Covered lib w f field_indices opts.predicates plans1 (plans2, predicates)
          tile s in
      let ready =
        cursors_start lib w f field_indices (length plans1) plans2 cursors tile2 grows starts in
      let made : Reader lib.Array (Table lib) = record {
        refs = pos 1;
        batch_size = batch;
        rows = num_rows f;
        pos = 0;
        current = none;
        error = none;
        columns = cursors;
        plans = map (λ x. x.1) plans2;
        predicates = predicates;
      } in
      let same : made ≡ r = ap (λ o. o.1) (ok-injective h3) in
      subst
        (λ (x : Reader lib.Array (Table lib)).
          HonestPlans x.plans
          → IsValid lib decode_layout decode_flat ctx_err (num_rows f) columns x
            × (x.refs ≡ pos 1)
            × (x.pos ≡ 0)
            × (x.current ≡ none)
            × (x.error ≡ none))
        same
        (λ g. (
          record {
            positive = positive_batch-pos opts.batch_size batch p;
            all_rows = refl;
            good = λ i.
                zones-good (columns i) _ (g i) (plan_at-zones lib w f field_indices plans2 i tile2);
            ready = ready;
          },
          refl,
          refl,
          refl,
          refl,
        ))
        good
