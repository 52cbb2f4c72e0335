-- ===== src/Tests/Starting.antt =====
-- A reader that is started on a small file, and a whole scan of it.
use vortex_go.Base.{
  ℕ, zero, suc, ◌⊎◌, ◌-◌, Bool, ◌≡◌, refl, sym, ap, subst, ◌∙◌, String, true, false, Option, none,
  some, List, [], ◌∷◌, arith, ◌+◌, ◌≤◌, length, ◌*◌,
}
use vortex_go.Base.Int.{pos}
use vortex_go.Outcome.{Error, Result, ok, ok-injective, Action}
use vortex_go.Schema.{with_nullable, simple, VortexType, Kind, no_fields, field}
use vortex_go.Layout.{Header, Layout, layout, nil, cons, LayoutId}
use vortex_go.Zone.{ZoneRef, new_zone_ref}
use vortex_go.Zone.Schema.{zone_schema}
use vortex_go.Zone.Evaluate.{
  Predicate, evaluate, Table, gt, column, null_count_at, bound_at, zone_rows,
}
use vortex_go.Zone.Evaluate.Honest.{Honest}
use vortex_go.Zone.Evaluate.Settled.{Kept, GaveUp, Cancelled}
use vortex_go.Zone.Evaluate.Settles.{evaluate-Settles}
use vortex_go.Zone.Evaluate.Steps.{TableTruth, some_path}
use vortex_go.Scan.Plan.{Piece}
use vortex_go.Zone.Evaluate.Sound.{Values, Truthful}
use vortex_go.Scan.Reader.{Reader, Batch, next, plan_at}
use vortex_go.Scan.Reader.Next.{IsValid}
use vortex_go.Scan.Reader.Whole.{Run, start, step, Scans, scan_lem}
use vortex_go.Scan.Reader.Ends.{next_ends}
use vortex_go.Scan.Start.{ScanOptions, start_reader}
use vortex_go.Scan.Start.Valid.{start_reader-IsValid, HonestPlans}
use vortex_go.File.DType.{struct_type}
use vortex_go.File.Open.Parts.{File}
use vortex_go.Tests.Toy.{ToyArray, ints, table, toy, no_wire, rows_of, flat_layout, int_type}

-- A file of two chunks, of two and three rows, of one column.
abbrev columns_of : ℕ → Layout
columns_of n = layout LayoutId.struct (rows_of n) (cons (flat_layout n) nil)

abbrev file : File Kind
file = record {
  size = 52;
  schema = record { name = "a"; dtype = Kind.i64; nullable = false } ∷ [];
  dtype = struct_type (field "a" int_type no_fields) false;
  root = layout LayoutId.chunked (rows_of 5) (cons (columns_of 2) (cons (columns_of 3) nil));
  registry = record { arrays = []; layouts = []; segments = [] };
}

-- All columns, in batches of four rows, where `a` is greater than 9.
abbrev options : ScanOptions
options = record {
  columns = none;
  batch_size = pos 4;
  predicates = record { column = "a"; op = 2; value = pos 9 } ∷ [];
}

abbrev indices : String → List ℕ
indices name = 0 ∷ []

abbrev flat : Layout → VortexType → Action (Unit {0}) ToyArray
flat l t w = (ok (ints []), w)

abbrev no_context : Unit {0} → Option Error × Unit {0}
no_context w = (none, w)

abbrev zeros : ℕ → Values
zeros i row = some (pos 0)

abbrev piece : ℕ → ℕ → Piece
piece a b = record {
  start = a;
  end = b;
  node = flat_layout (b - a);
  dtype = int_type;
  field = none;
  dictionary = none;
}

abbrev reader : Reader ToyArray (Table toy)
reader = record {
  refs = pos 1;
  batch_size = 4;
  rows = 5;
  pos = 0;
  current = none;
  error = none;
  columns =
      record {
        plan = 0;
        index = 0;
        cached = none;
        values = none;
        dictionary = none;
        dict_values = none;
      }
      ∷ [];
  plans = record { pieces = piece 0 2 ∷ (piece 2 5 ∷ []); zones = [] } ∷ [];
  predicates = (record { op = gt; value = pos 9 }, 0) ∷ [];
}

start_run : start_reader toy no_wire file indices options ≡ ok (file.schema, reader)
unfolding start_reader
start_run = refl

no_zones : HonestPlans toy no_wire file indices flat flat no_context zeros reader.plans
unfolding plan_at
no_zones zero = tt
no_zones (suc i) = tt

reader-IsValid : IsValid toy flat flat no_context 5 zeros reader
reader-IsValid =
    (start_reader-IsValid toy no_wire file indices flat flat no_context zeros options file.schema
      reader start_run no_zones).0

-- A file of one chunk of two rows whose column has a zone map: a table of one row.
abbrev zoned_header : Header
zoned_header = record { address = 9; rows = 2; metadata = 2 ∷ 0 ∷ 0 ∷ 0 ∷ 8 ∷ []; segments = [] }

abbrev zoned_column : Layout
zoned_column = layout LayoutId.stats zoned_header (cons (flat_layout 2) (cons (flat_layout 1) nil))

abbrev zoned_file : File Kind
zoned_file = record file { root = layout LayoutId.struct (rows_of 2) (cons zoned_column nil) }

-- The table has a maximum for the zone and no other bound.
abbrev maximum_type : VortexType
maximum_type =
    struct_type
      (field "max" (with_nullable true int_type)
        (field "max_is_truncated" (simple Kind.bool false) no_fields))
      false

abbrev zone : ZoneRef (Table toy)
zone = record {
  start = 0;
  end = 2;
  zone_len = 2;
  node = flat_layout 1;
  dtype = maximum_type;
  stats = record {
    min_field = none;
    max_field = some 0;
    null_field = none;
    min_truncated = none;
    max_truncated = some 1;
  };
  loaded = false;
  values = none;
}

abbrev zoned_reader : Reader ToyArray (Table toy)
zoned_reader = record reader {
  rows = 2;
  plans = record { pieces = piece 0 2 ∷ []; zones = zone ∷ [] } ∷ [];
}

zoned_run : start_reader toy no_wire zoned_file indices options ≡ ok (file.schema, zoned_reader)
unfolding start_reader new_zone_ref zone_schema
zoned_run = refl

-- Every layout decodes to a table of one maximum, 0.
abbrev maximum : Layout → VortexType → Action (Unit {0}) ToyArray
maximum l t w = (ok (table (pos 0 ∷ []) (pos 0 ∷ [])), w)

maximum-Truthful :
    (idx : ℕ)
    → Truthful toy
        (ints (pos 0 ∷ []) ∷ (ints (pos 0 ∷ []) ∷ []))
        zone.stats
        idx
        (0 + idx * 2)
        (zone_rows toy zone idx)
        (zeros 0)
unfolding column null_count_at bound_at zone_rows
maximum-Truthful zero = record {
  nulls = λ a k h e. cc (e, ok-injective h);
  lower = λ a lo v r h e x y q. cc (e, ok-injective h);
  upper = λ a hi v r h e x y q. ground (arith, ok-injective h);
}
maximum-Truthful (suc idx) = record {
  nulls = λ a k h e. cc (e, ok-injective h);
  lower = λ a lo v r h e x y q. absurd (omega arith);
  upper = λ a hi v r h e x y q. absurd (omega arith);
}

zone-Honest : Honest toy maximum (zeros 0) zone
zone-Honest = record {
  loaded_truth = λ t q. cc;
  source_truth = λ w w' a fields h k.
      subst (TableTruth toy (zeros 0) zone)
        (some_path
          (ap toy.as_struct (ok-injective (ap (λ (o : Result ToyArray × Unit {0}). o.0) h)) ∙ k))
        (λ positive idx. maximum-Truthful idx);
}

honest_plans :
    HonestPlans toy no_wire zoned_file indices maximum flat no_context zeros zoned_reader.plans
unfolding plan_at
honest_plans zero = (zone-Honest, tt)
honest_plans (suc i) = tt

start_reader-IsValid_example :
    IsValid toy maximum flat no_context 2 zeros zoned_reader
    × (zoned_reader.refs ≡ pos 1)
    × (zoned_reader.pos ≡ 0)
    × (zoned_reader.current ≡ none)
    × (zoned_reader.error ≡ none)
start_reader-IsValid_example =
    start_reader-IsValid toy no_wire zoned_file indices maximum flat no_context zeros options
      file.schema zoned_reader zoned_run honest_plans

abbrev call : Reader ToyArray (Table toy) → Bool × Reader ToyArray (Table toy) × Unit {0}
call r = next toy flat flat no_context r tt

abbrev batch : ℕ → ℕ → Batch ToyArray
batch a b = record { columns = ints [] ∷ []; offset = a; end = b }

abbrev two_batches : List (Batch ToyArray)
two_batches = batch 0 2 ∷ (batch 2 5 ∷ [])

-- The reader after the batch from `a` to `b`, which piece `i` holds.
abbrev after : (i a b : ℕ) → Reader ToyArray (Table toy)
after i a b = record reader {
  pos = b;
  current = some (batch a b);
  columns =
      record {
        plan = 0;
        index = i;
        cached = some i;
        values = some (ints []);
        dictionary = none;
        dict_values = none;
      }
      ∷ [];
}

first_call : call reader ≡ (true, after 0 0 2, tt)
unfolding next
first_call = refl

second_call : call (after 0 0 2) ≡ (true, after 1 2 5, tt)
unfolding next
second_call = refl

third_call : ((call (after 1 2 5)).0 ≡ false) × ((call (after 1 2 5)).1.error ≡ none)
unfolding next
third_call = (refl, refl)

calls : Run toy flat flat no_context 5 zeros reader two_batches (after 1 2 5)
calls = step tt (batch 0 2) (ap (λ o. o.0) first_call) (ap (λ o. o.1.current) first_call) (
    subst
      (λ (o : Bool × Reader ToyArray (Table toy) × Unit {0}).
        Run toy flat flat no_context 5 zeros o.1 (batch 2 5 ∷ []) (after 1 2 5))
      (sym first_call)
      (step tt (batch 2 5) (ap (λ o. o.0) second_call) (ap (λ o. o.1.current) second_call) (
        subst
          (λ (o : Bool × Reader ToyArray (Table toy) × Unit {0}).
            Run toy flat flat no_context 5 zeros o.1 [] (after 1 2 5))
          (sym second_call) start)))

scan_lem_example : Scans toy flat flat no_context 5 zeros reader two_batches
scan_lem_example =
    scan_lem toy flat flat no_context 5 zeros reader two_batches (after 1 2 5) tt reader-IsValid
      calls (omega arith) third_call.0 third_call.1 (omega arith)

next_ends_example :
    (reader.pos + length two_batches ≤ (after 1 2 5).pos)
    × ((after 1 2 5).pos ≤ 5)
    × IsValid toy flat flat no_context 5 zeros (after 1 2 5)
next_ends_example =
    next_ends toy flat flat no_context 5 zeros reader two_batches (after 1 2 5) reader-IsValid
      (omega arith) calls

abbrev above_nine : Predicate
above_nine = record { op = gt; value = pos 9 }

abbrev first : Result (ℕ × Bool) × ZoneRef (Table toy) × Unit {0}
first = evaluate toy maximum zone 0 above_nine tt

abbrev second : Result (ℕ × Bool) × ZoneRef (Table toy) × Unit {0}
second = evaluate toy maximum first.1 1 above_nine tt

evaluate-Settles_example :
    (second.1 ≡ first.1)
    × (second.2 ≡ tt)
    × (Kept toy zone (maximum zone.node zone.dtype tt).0 first.1
        ⊎ GaveUp toy zone (maximum zone.node zone.dtype tt).0 first.0 first.1 second.0
        ⊎ Cancelled toy zone (maximum zone.node zone.dtype tt).0 first.0 first.1)
evaluate-Settles_example =
    evaluate-Settles toy maximum zone 0 1 above_nine above_nine tt tt refl refl
