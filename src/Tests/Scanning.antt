-- ===== src/Tests/Scanning.antt =====
-- The scan at small inputs.
use vortex_go.Base.{
  ℕ, zero, suc, ◌+◌, ◌-◌, ◌*◌, ◌≡◌, refl, ap, subst, true, false, Option, none, some, [], ◌∷◌, All,
  arith,
}
use vortex_go.Base.Int.{pos}
use vortex_go.Outcome.{Error, Result, ok, err, failed, Action, ok-injective}
use vortex_go.Schema.{VortexType}
use vortex_go.Layout.{Layout}
use vortex_go.Zone.{ZoneRef, Statistics}
use vortex_go.Zone.Evaluate.{
  Predicate, gt, Table, evaluate, zone_end, column, null_count_at, bound_at, zone_rows,
}
use vortex_go.Zone.Evaluate.Sound.{Values, Truthful}
use vortex_go.Zone.Evaluate.Steps.{TableTruth, Answer, some_path}
use vortex_go.Zone.Evaluate.Honest.{Honest, evaluate_sound}
use vortex_go.Scan.Plan.{Piece, ColumnPlan, empty_plan, build_scalar_plan, build_field_plan}
use vortex_go.Scan.Plan.Tiling.{Covers, build_scalar_plan-Covers}
use vortex_go.Scan.Plan.Columns.{build_field_plan-Covers}
use vortex_go.Scan.Cursor.{Ready, cursor_at, Found, cursor_at-Found}
use vortex_go.Scan.Reader.{Reader, rounds, plan_at, is_skipped}
use vortex_go.Scan.Reader.Visit.{GoodZone}
use vortex_go.Scan.Reader.Next.{IsValid, Leads, rounds_lem}
use vortex_go.Tests.Toy.{ToyArray, ints, table, toy, no_wire, chunks, flat_layout, int_type}

abbrev piece : ℕ → ℕ → Piece
piece a b = record {
  start = a;
  end = b;
  node = flat_layout (b - a);
  dtype = int_type;
  field = none;
  dictionary = none;
}

abbrev two_pieces : ColumnPlan (Table toy)
two_pieces = record { pieces = piece 0 2 ∷ (piece 2 5 ∷ []); zones = [] }

plan_chunks : build_scalar_plan no_wire chunks int_type 0 empty_plan ≡ ok two_pieces
unfolding build_scalar_plan
plan_chunks = refl

build_scalar_plan-Covers_example : Covers 0 5 5 two_pieces
build_scalar_plan-Covers_example =
    build_scalar_plan-Covers no_wire chunks int_type 0 two_pieces plan_chunks

plan_field :
    build_field_plan no_wire chunks int_type 0 0 empty_plan
    ≡ ok (
        let out : ColumnPlan (Table toy) = record {
          pieces =
              record (piece 0 2) { field = some 0 } ∷ (record (piece 2 5) { field = some 0 } ∷ []);
          zones = [];
        } in
        out)
unfolding build_field_plan
plan_field = refl

build_field_plan-Covers_example : Covers 0 5 5 (
    let out : ColumnPlan (Table toy) = record {
      pieces = record (piece 0 2) { field = some 0 } ∷ (record (piece 2 5) { field = some 0 } ∷ []);
      zones = [];
    } in
    out)
build_field_plan-Covers_example = build_field_plan-Covers no_wire chunks int_type 0 _ plan_field

at_start : Ready 5 two_pieces.pieces 3 0
at_start = record { first = 0; first_le = omega arith; tiles = omega arith }

cursor_at-Found_example : Found 5 two_pieces.pieces 3 (cursor_at two_pieces.pieces 0 3)
cursor_at-Found_example = cursor_at-Found two_pieces.pieces 0 3 5 at_start (omega arith)

-- A column of two rows, 5 and 6, with one zone, and the predicate `value > 9`.
abbrev rising : ℕ → Values
rising i r = some (pos (5 + r))

abbrev statistics : Statistics
statistics = record {
  min_field = some 0;
  max_field = some 1;
  null_field = none;
  min_truncated = none;
  max_truncated = none;
}

abbrev zone : ZoneRef (Table toy)
zone = record {
  start = 0;
  end = 2;
  zone_len = 2;
  node = flat_layout 1;
  dtype = int_type;
  stats = statistics;
  loaded = true;
  values = some (table (pos 5 ∷ []) (pos 6 ∷ []), ints (pos 5 ∷ []) ∷ (ints (pos 6 ∷ []) ∷ []));
}

-- No layout decodes.
abbrev nothing : Layout → VortexType → Action Unit ToyArray
nothing l t w = (err (failed "toy"), w)

truthful :
    (idx : ℕ)
    → Truthful toy
        (ints (pos 5 ∷ []) ∷ (ints (pos 6 ∷ []) ∷ []))
        statistics
        idx
        (0 + idx * 2)
        (zone_rows toy zone idx)
        (rising 0)
unfolding column null_count_at bound_at zone_rows
truthful zero = record {
  nulls = λ a k h e. cc (e, ok-injective h);
  lower = λ a lo v r h e x y q. ground (arith, ok-injective h);
  upper = λ a hi v r h e x y q. ground (arith, ok-injective h);
}
truthful (suc idx) = record {
  nulls = λ a k h e. cc (e, ok-injective h);
  lower = λ a lo v r h e x y q. absurd (omega arith);
  upper = λ a hi v r h e x y q. absurd (omega arith);
}

honest : Honest toy nothing (rising 0) zone
honest = record {
  loaded_truth = λ t q.
      subst (λ (v : Table toy). TableTruth toy (rising 0) zone v.1) (some_path q)
        (λ positive idx. truthful idx);
  source_truth = λ w w' a fields h. cc (ap (λ (o : Result ToyArray × Unit). o.0) h);
}

abbrev above_nine : Predicate
above_nine = record { op = gt; value = pos 9 }

skips_all : (evaluate toy nothing zone 0 above_nine tt).0 ≡ ok (2, true)
unfolding evaluate zone_end
skips_all = refl

evaluate_sound_example : Answer toy (rising 0) zone 0 above_nine 2 true
evaluate_sound_example =
    evaluate_sound toy nothing (rising 0) zone 0 above_nine tt 2 true honest (omega arith)
      (omega arith) skips_all

abbrev reader : Reader ToyArray (Table toy)
reader = record {
  refs = pos 1;
  batch_size = 4;
  rows = 2;
  pos = 0;
  current = none;
  error = none;
  columns =
      record {
        plan = 0;
        index = 0;
        cached = none;
        values = none;
        dictionary = none;
        dict_values = none;
      }
      ∷ [];
  plans = record { pieces = piece 0 2 ∷ []; zones = zone ∷ [] } ∷ [];
  predicates = (above_nine, 0) ∷ [];
}

abbrev no_context : Unit {0} → Option Error × Unit {0}
no_context w = (none, w)

reader-IsValid : IsValid toy nothing nothing no_context 2 rising reader
unfolding plan_at
reader-IsValid = record {
  positive = omega arith;
  all_rows = refl;
  good = good;
  ready = (record { first = 0; first_le = omega arith; tiles = omega arith }, tt);
}
  where
    good : (i : ℕ) → All (GoodZone toy nothing 2 (rising i)) (plan_at reader.plans i).zones
    good zero = (record { honest = honest; inside = omega arith }, tt)
    good (suc i) = tt

rounds_lem_example :
    (is_skipped (rounds toy nothing nothing no_context 2 reader tt).0 ≡ false)
    × Leads toy nothing nothing no_context 2 rising reader 0
        (rounds toy nothing nothing no_context 2 reader tt).0
        (rounds toy nothing nothing no_context 2 reader tt).1
rounds_lem_example = rounds_lem toy nothing nothing no_context 2 rising reader tt reader-IsValid
