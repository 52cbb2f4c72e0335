-- ===== src/Scan/Reader.antt =====
-- `RecordReader.Next` and `Release` of scan.go. Plans are shared, as in the code: a cursor and a
-- predicate name the plan of their column, so the zone state of a column is kept once.
pub mod Read
pub mod Visit
pub mod Predicates
pub mod Columns
pub mod Rounds
pub mod Next
pub mod Kept
pub mod Calls
pub mod Whole
pub mod Ends
use vortex_go.Base.{
  ℕ, zero, suc, ◌+◌, ◌-◌, Bool, true, false, Option, none, some, List, [], ◌∷◌, map, set, get_or,
  min, max, ltb, leb, ◌==◌, if◌then◌else◌,
}
use vortex_go.Base.Int.{ℤ, zero_ℤ, minus_one_ℤ, ◌+ℤ◌, leb_ℤ, eqb_ℤ}
use vortex_go.Outcome.{Error, Result, ok, err, invalid, panic, Action, map_ok}
use vortex_go.Schema.{VortexType}
use vortex_go.Layout.{Layout}
use vortex_go.ArrayLib.{ArrayLib}
use vortex_go.Wire.{ProtoWire}
use vortex_go.Zone.{ZoneRef}
use vortex_go.Zone.Evaluate.{Predicate, Table, evaluate}
use vortex_go.Scan.Plan.{Piece, ColumnPlan, empty_plan}
use vortex_go.Scan.Cursor.{cursor_at}
use Read.{Cursor, read_column, release_cursor}

-- A record batch: the columns and the rows from `offset` up to `end`.
pub record Batch (A : Type 0) : Type 0 where
  pub columns : List A
  pub offset : ℕ
  pub end : ℕ

-- `RecordReader`; `refs` is its reference count, which Release can bring below 0.
pub record Reader (A T : Type 0) : Type 0 where
  pub refs : ℤ
  pub batch_size : ℕ
  pub rows : ℕ
  pub pos : ℕ
  pub current : Option (Batch A)
  pub error : Option Error
  pub columns : List (Cursor A)
  pub plans : List (ColumnPlan T)
  pub predicates : List (Predicate × ℕ)

-- What one round of the loop in Next comes to. `stuck` is no outcome of the code: the fuel is spent.
pub data Progress (A : Type 0) : Type 0 where
  skipped : Progress A
  produced : Batch A → Progress A
  stopped : Error → Progress A
  finished stuck : Progress A

abbrev pub is_skipped : {A : Type 0} → Progress A → Bool
is_skipped skipped = true
is_skipped (produced b) = false
is_skipped (stopped e) = false
is_skipped finished = false
is_skipped stuck = false

-- r.predicates[..].plan
unfoldable pub plan_at : {T : Type 0} → List (ColumnPlan T) → ℕ → ColumnPlan T
plan_at plans i = get_or plans i empty_plan

-- A recovered panic is an ErrInvalid.
recovered : Error → Error
recovered panic = invalid "scan"
recovered e = e

module _ (lib : ArrayLib) where
  open lib use {Array}

  abbrev pub Zone : Type 0
  Zone = ZoneRef (Table lib)

  abbrev pub with_zones : ColumnPlan (Table lib) → List Zone → ColumnPlan (Table lib)
  with_zones plan zs = record plan { zones = zs }

  module _ {World : Type 0} (decode_layout : Layout → VortexType → Action World Array) where
    -- The ends after a zone has answered.
    answered : (end skip : ℕ) → Result (ℕ × Bool) → Result (ℕ × ℕ)
    answered end skip (err e) = err e
    answered end skip (ok (zone_end, skips)) =
        ok (min end zone_end, if skips then max skip zone_end else skip)

    -- One zone: `end` bounds the batch, and the rows before `skip` may be skipped.
    pub visit :
        Zone → (pos : ℕ) → Predicate → (end skip : ℕ) → World → Result (ℕ × ℕ) × Zone × World
    unfolding answered
    visit z pos p end skip w =
        if ltb pos z.start
        then (ok (min end z.start, skip), z, w)
        else if leb z.end pos
        then (ok (end, skip), z, w)
        else (let (r, z', w') = evaluate lib decode_layout z pos p w in
            (answered end skip r, z', w'))

    pub visit_zones :
        List Zone
        → (pos : ℕ) → Predicate
        → (end skip : ℕ) → World
        → Result (ℕ × ℕ) × List Zone × World
    visit_zones [] pos p end skip w = (ok (end, skip), [], w)
    visit_zones (z ∷ zs) pos p end skip w =
        let (r, z', w') = visit z pos p end skip w in
        elim r [
          | err e ↦ (err e, z' ∷ zs, w')
          | ok (end', skip') ↦
              (let (r', zs', w'') = visit_zones zs pos p end' skip' w' in (r', z' ∷ zs', w''))
        ]

    -- The loop over the predicates.
    pub visit_predicates :
        List (Predicate × ℕ)
        → List (ColumnPlan (Table lib))
        → (pos end skip : ℕ) → World
        → Result (ℕ × ℕ) × List (ColumnPlan (Table lib)) × World
    unfolding visit_zones plan_at
    visit_predicates [] plans pos end skip w = (ok (end, skip), plans, w)
    visit_predicates ((p, i) ∷ ps) plans pos end skip w =
        let (r, zs, w') = visit_zones (plan_at plans i).zones pos p end skip w in
        let plans' = set plans i (with_zones (plan_at plans i) zs) in
        elim r [
          | err e ↦ (err e, plans', w')
          | ok (end', skip') ↦ visit_predicates ps plans' pos end' skip' w'
        ]

  with_piece : ℕ → Piece → Result (ℕ × List (ℕ × Piece)) → Result (ℕ × List (ℕ × Piece))
  with_piece i p (err e) = err e
  with_piece i p (ok (end, ps)) = ok (end, (i, p) ∷ ps)

  -- `c.at(r.pos)` for every column: the batch ends no later than any of the pieces.
  pub locate :
      List (Cursor Array)
      → List (ColumnPlan (Table lib))
      → (pos end : ℕ) → Result (ℕ × List (ℕ × Piece)) × List (Cursor Array)
  unfolding plan_at with_piece cursor_at
  locate [] plans pos end = (ok (end, []), [])
  locate (c ∷ cs) plans pos end =
      let (r, index) = cursor_at (plan_at plans c.plan).pieces c.index pos in
      let c' = record c { index = index } in
      elim r [
        | err e ↦ (err e, c' ∷ cs)
        | ok (i, p) ↦
            (let (r', cs') = locate cs plans pos (min end p.end) in (with_piece i p r', c' ∷ cs'))
      ]

  -- z.release() of every zone of every predicate, and c.release() of every column
  release_zone : ZoneRef (Table lib) → ZoneRef (Table lib)
  release_zone z = record z { values = none }

  release_plan : ColumnPlan (Table lib) → ColumnPlan (Table lib)
  release_plan plan = record plan { zones = map release_zone plan.zones }

  release_all : Reader Array (Table lib) → Reader Array (Table lib)
  unfolding release_zone release_plan
  release_all r = record r {
    columns = map release_cursor r.columns;
    plans = map release_plan r.plans;
  }

  -- r.Release()
  pub release : Reader Array (Table lib) → Reader Array (Table lib)
  unfolding release_all ◌+ℤ◌
  release r =
      if eqb_ℤ (r.refs +ℤ minus_one_ℤ) zero_ℤ
      then record (release_all r) { refs = zero_ℤ; current = none; columns = []; predicates = [] }
      else record r { refs = r.refs +ℤ minus_one_ℤ }

  module _ {World : Type 0} (decode_layout : Layout → VortexType → Action World Array)
      (decode_flat : Layout → VortexType → Action World Array)
      (ctx_err : World → Option Error × World) where
    -- The loop of `c.read` calls.
    pub read_columns :
        List (Cursor Array)
        → List (ℕ × Piece)
        → (pos end : ℕ) → World
        → Result (List Array) × List (Cursor Array) × World
    unfolding read_column
    read_columns (c ∷ cs) ((i, p) ∷ ps) pos end w =
        let (r, c', w') = read_column lib decode_layout decode_flat c i p pos end w in
        elim r [
          | err e ↦ (err e, c' ∷ cs, w')
          | ok a ↦
              (let (r', cs', w'') = read_columns cs ps pos end w' in
                (map_ok (λ as'. a ∷ as') r', c' ∷ cs', w''))
        ]
    read_columns cs ps pos end w = (ok [], cs, w)

    -- The rest of a round, once the columns are read and the context was asked.
    pub delivered :
        Option Error
        → Reader Array (Table lib)
        → ℕ
        → List Array
        → World
        → Progress Array × Reader Array (Table lib) × World
    delivered (some e) r end cols w = (stopped e, r, w)
    delivered none r end cols w =
        let b : Batch Array = record { columns = cols; offset = r.pos; end = end } in
        (produced b, record r { current = some b; pos = end }, w)

    pub collected :
        Result (List Array)
        → Reader Array (Table lib)
        → ℕ
        → World
        → Progress Array × Reader Array (Table lib) × World
    unfolding delivered
    collected (err e) r end w = (stopped e, r, w)
    collected (ok cols) r end w = let (c, w') = ctx_err w in delivered c r end cols w'

    -- Each column has found its piece.
    pub located :
        Result (ℕ × List (ℕ × Piece))
        → Reader Array (Table lib)
        → World
        → Progress Array × Reader Array (Table lib) × World
    unfolding read_columns collected
    located (err e) r w = (stopped e, r, w)
    located (ok (end, ps)) r w =
        if leb end r.pos
        then (stopped (invalid "scan failed to advance"), r, w)
        else (let (a, cs, w') = read_columns r.columns ps r.pos end w in
            collected a (record r { columns = cs }) end w')

    pub fetch :
        Reader Array (Table lib) → ℕ → World → Progress Array × Reader Array (Table lib) × World
    unfolding locate located
    fetch r end w =
        let (l, cs) = locate r.columns r.plans r.pos end in located l (record r { columns = cs }) w

    -- After the zones have answered: skip, or fetch a batch.
    pub proceed :
        Reader Array (Table lib)
        → Result (ℕ × ℕ)
        → World
        → Progress Array × Reader Array (Table lib) × World
    unfolding fetch
    proceed r (err e) w = (stopped e, r, w)
    proceed r (ok (end, skip)) w =
        if ltb r.pos skip then (skipped, record r { pos = skip }, w) else fetch r end w

    pub entered :
        Option Error
        → Reader Array (Table lib)
        → World
        → Progress Array × Reader Array (Table lib) × World
    unfolding visit_predicates proceed
    entered (some e) r w = (stopped e, r, w)
    entered none r w =
        let (v, plans, w') =
          visit_predicates decode_layout r.predicates r.plans r.pos
            (r.pos + min r.batch_size (r.rows - r.pos)) r.pos w in
        proceed (record r { plans = plans }) v w'

    -- One round of `for r.pos < r.rows`, from its check of the context on.
    pub round : Reader Array (Table lib) → World → Progress Array × Reader Array (Table lib) × World
    unfolding entered
    round r w = let (c, w') = ctx_err w in entered c r w'

    -- The loop. Each round advances, so `rows - pos` rounds are enough.
    pub rounds :
        (fuel : ℕ)
        → Reader Array (Table lib)
        → World
        → Progress Array × Reader Array (Table lib) × World
    unfolding round
    rounds zero r w = (if leb r.rows r.pos then finished else stuck, r, w)
    rounds (suc fuel) r w =
        let (p, r', w') = round r w in
        let again = rounds fuel r' w' in
        if leb r.rows r.pos then (finished, r, w) else if is_skipped p then again else (p, r', w')

    finish :
        Progress Array → Reader Array (Table lib) → World → Bool × Reader Array (Table lib) × World
    unfolding recovered release_all
    finish (produced b) r w = (true, r, w)
    finish (stopped e) r w = (false, release_all (record r { error = some (recovered e) }), w)
    finish p r w = (false, release_all r, w)

    started :
        Option Error → Reader Array (Table lib) → World → Bool × Reader Array (Table lib) × World
    unfolding rounds finish
    started (some e) r w = finish (stopped e) r w
    started none r w = let (p, r', w') = rounds (r.rows - r.pos) r w in finish p r' w'

    run : Reader Array (Table lib) → World → Bool × Reader Array (Table lib) × World
    unfolding started
    run r w = let (c, w') = ctx_err w in started c r w'

    unless_failed :
        Option Error → Reader Array (Table lib) → World → Bool × Reader Array (Table lib) × World
    unfolding run
    unless_failed (some e) r w = (false, r, w)
    unless_failed none r w = if leb_ℤ r.refs zero_ℤ then (false, r, w) else run r w

    -- r.Next()
    unfoldable pub next : Reader Array (Table lib) → World → Bool × Reader Array (Table lib) × World
    unfolding unless_failed
    next r w = unless_failed r.error (record r { current = none }) w
