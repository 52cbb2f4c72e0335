-- ===== src/Scan/Start.antt =====
-- `File.NewRecordReader` of scan.go: the columns and the predicates of a scan share the plan of a
-- column that they both name.
pub mod Plans
pub mod Valid
use vortex_go.Base.{
  ℕ, zero, suc, ◌+◌, String, Bool, true, false, not, Option, none, some, List, [], ◌∷◌, ◌++◌, map,
  length, ◌==◌, if◌then◌else◌,
}
use vortex_go.Base.Int.{ℤ, pos, negsuc}
use vortex_go.Outcome.{Error, Result, ok, err, failed, panic, refuse, Action, ◌>>=◌, ◌>>◌}
use vortex_go.Outcome.Act.{check_context}
use vortex_go.Schema.{VortexType, fields_of, field_type, kind_of, is_signed}
use vortex_go.Schema.Arrow.{ArrowTypes, ArrowField}
use vortex_go.ArrayLib.{ArrayLib}
use vortex_go.Wire.{ProtoWire}
use vortex_go.Encoding.Values.{index}
use vortex_go.Zone.Evaluate.{Predicate, CompareOp, eq, neq, gt, gte, lt, lte, Table}
use vortex_go.Scan.Plan.{ColumnPlan}
use vortex_go.Scan.Reader.{Reader}
use vortex_go.Scan.Reader.Read.{Cursor}
use vortex_go.Scan.Start.Plans.{NamedPlans, get_plan}
use vortex_go.File.Open.Parts.{File, num_rows}

-- Predicate of ScanOptions: the comparison is a byte.
pub record ScanPredicate : Type 0 where
  pub column : String
  pub op : ℕ
  pub value : ℤ

-- ScanOptions
pub record ScanOptions : Type 0 where
  pub columns : Option (List String)
  pub batch_size : ℤ
  pub predicates : List ScanPredicate

-- The comparison of a byte; pred.Op > OpLTE is an error.
compare_op : ℕ → Result CompareOp
compare_op op =
    if op == 0
    then ok eq
    else if op == 1
    then ok neq
    else if op == 2
    then ok gt
    else if op == 3
    then ok gte
    else if op == 4
    then ok lt
    else if op == 5
    then ok lte
    else err (failed "invalid comparison")

-- The batch size, with its default.
positive_batch : ℤ → Result ℕ
positive_batch (negsuc k) = err (failed "negative batch size")
positive_batch (pos zero) = ok 65536
positive_batch (pos (suc k)) = ok (suc k)

pub fresh_cursor : {A : Type 0} → ℕ → Cursor A
fresh_cursor plan = record {
  plan = plan;
  index = 0;
  cached = none;
  values = none;
  dictionary = none;
  dict_values = none;
}

module _ (lib : ArrayLib) (w : ProtoWire) {DataType : Type 0} (f : File DataType)
    -- f.schema.FieldIndices of the Arrow library
    (field_indices : String → List ℕ) where
  abbrev Named : Type 0
  Named = NamedPlans (Table lib)

  -- The loop over the names: the plans, a cursor for each name and its field of the schema.
  add_columns :
      List String → Named → Result (Named × List (Cursor lib.Array) × List (ArrowField DataType))
  unfolding get_plan fresh_cursor
  add_columns [] plans = ok (plans, [], [])
  add_columns (name ∷ names) plans = do
    (k, i, plans1) ← get_plan w f.root f.dtype field_indices plans name
    column ← index f.schema i
    (plans2, cursors, columns) ← add_columns names plans1
    ok (plans2, fresh_cursor k ∷ cursors, column ∷ columns)

  -- f.dtype.Fields[i].Type
  dtype_at : ℕ → Result VortexType
  dtype_at i = elim (field_type (fields_of f.dtype) i) [ none ↦ err panic | some t ↦ ok t ]

  -- The loop over the predicates; one of a column that is not signed is left out.
  add_predicates : List ScanPredicate → Named → Result (Named × List (Predicate × ℕ))
  unfolding compare_op get_plan dtype_at
  add_predicates [] plans = ok (plans, [])
  add_predicates (p ∷ ps) plans = do
    op ← compare_op p.op
    (k, i, plans1) ← get_plan w f.root f.dtype field_indices plans p.column
    t ← dtype_at i
    (plans2, rest) ← add_predicates ps plans1
    ok (
      plans2,
      (if is_signed (kind_of t) then (record { op = op; value = p.value }, k) ∷ rest else rest),
    )

  all_names : Option (List String) → List String
  all_names none = map (λ c. c.name) f.schema
  all_names (some names) = names

  -- NewRecordReader behind its check of the context: the schema and the reader.
  unfoldable pub start_reader :
      ScanOptions → Result (List (ArrowField DataType) × Reader lib.Array (Table lib))
  unfolding positive_batch add_columns add_predicates all_names
  start_reader opts = do
    batch ← positive_batch opts.batch_size
    (plans1, cursors, columns) ← add_columns (all_names opts.columns) []
    (plans2, predicates) ← add_predicates opts.predicates plans1
    ok (
      columns,
      record {
        refs = pos 1;
        batch_size = batch;
        rows = num_rows f;
        pos = 0;
        current = none;
        error = none;
        columns = cursors;
        plans = map (λ p. p.1) plans2;
        predicates = predicates;
      },
    )

  -- f.NewRecordReader(ctx, opts)
  unfoldable pub new_record_reader :
      {World : Type 0}
      → (World → Option Error × World)
      → ScanOptions
      → Action World (List (ArrowField DataType) × Reader lib.Array (Table lib))
  unfolding start_reader check_context
  new_record_reader ctx_err opts world =
      let (done, world') = check_context ctx_err world in (done >>= λ u. start_reader opts, world')
