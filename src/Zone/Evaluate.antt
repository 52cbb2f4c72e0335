-- ===== src/Zone/Evaluate.antt =====
-- `zoneRef.evaluate` and `signedValue` of prune.go: may the rows of the zone at `pos` be skipped?
pub mod Sound
pub mod Steps
pub mod Honest
pub mod Settled
pub mod Settles
use vortex_go.Base.{
  ℕ, ◌+◌, ◌-◌, ◌*◌, ◌/◌, ◌%◌, min, Bool, true, false, not, ◌&&◌, ◌||◌, Option, none, some, List, [],
  ◌∷◌, get_elem?, ltb, leb, ◌==◌, if◌then◌else◌,
}
use vortex_go.Base.Int.{ℤ, ltb_ℤ, leb_ℤ, eqb_ℤ}
use vortex_go.Outcome.{Result, ok, err, panic, Error, is_cancellation, Action, ◌>>=◌}
use vortex_go.Schema.{VortexType}
use vortex_go.Layout.{Layout, rows}
use vortex_go.ArrayLib.{ArrayLib}
use vortex_go.Zone.{ZoneRef, Statistics}

-- CompareOp of scan.go
pub data CompareOp : Type 0 where
  eq neq gt gte lt lte : CompareOp

-- Predicate of scan.go, without the column's name
pub record Predicate : Type 0 where
  pub op : CompareOp
  pub value : ℤ

is_neq : CompareOp → Bool
is_neq neq = true
is_neq op = false

-- The end of the zone at `pos`, or of the layout.
unfoldable pub zone_end : {A : Type 0} → ZoneRef A → ℕ → ℕ
zone_end z pos = pos + min (z.zone_len - (pos - z.start) % z.zone_len) (z.end - pos)

-- What the null count says: it cannot be right, every row is null, or whether none is.
pub data NullCheck : Type 0 where
  unreliable all_null : NullCheck
  known_non_null : Bool → NullCheck

null_check : Option ℕ → (zone_rows : ℕ) → CompareOp → NullCheck
unfolding is_neq
null_check none zone_rows op = known_non_null false
null_check (some nulls) zone_rows op =
    if ltb zone_rows nulls
    then unreliable
    else if nulls == zone_rows && not (is_neq op)
    then all_null
    else known_non_null (nulls == 0)

-- The switch over p.Op.
excluded : Predicate → Bool → (lo hi : ℤ) → Bool
excluded p non_null lo hi = elim p.op [
  | eq ↦ ltb_ℤ p.value lo || ltb_ℤ hi p.value
  | neq ↦ non_null && eqb_ℤ lo hi && eqb_ℤ lo p.value
  | gt ↦ leb_ℤ hi p.value
  | gte ↦ ltb_ℤ hi p.value
  | lt ↦ leb_ℤ p.value lo
  | lte ↦ ltb_ℤ p.value lo
]

by_bounds : Predicate → Bool → Option ℤ → Option ℤ → Bool
unfolding excluded
by_bounds p non_null none hi = false
by_bounds p non_null (some lo) none = false
by_bounds p non_null (some lo) (some hi) = if ltb_ℤ hi lo then false else excluded p non_null lo hi

is_none : {B : Type 0} → Option B → Bool
is_none none = true
is_none (some b) = false

module _ (lib : ArrayLib) where
  open lib use {Array, len, is_null, as_struct, as_uint64, as_boolean, as_signed}

  value_at : {B : Type 0} → Option (ℕ → B) → ℕ → Bool → Option B
  value_at none i null = none
  value_at (some f) i null = if null then none else some (f i)

  -- signedValue; `index` is never negative here
  signed_value : Array → ℕ → Option ℤ
  unfolding value_at
  signed_value a index =
      if leb (len a) index then none else value_at (as_signed a) index (is_null a index)

  -- st.Field(i): out of range is a panic. A statistic that the table lacks is `none`.
  unfoldable pub column : List Array → Option ℕ → Result (Option Array)
  column fields none = ok none
  column fields (some i) = elim (get_elem? fields i) [ none ↦ err panic | some a ↦ ok (some a) ]

  unfoldable pub null_count_at : Option Array → ℕ → Option ℕ
  unfolding value_at
  null_count_at none idx = none
  null_count_at (some a) idx = value_at (as_uint64 a) idx (is_null a idx)

  -- The field says that the bound is truncated, or does not say that it is not.
  maybe_truncated : Option Array → ℕ → Bool
  unfolding value_at
  maybe_truncated none idx = false
  maybe_truncated (some a) idx = elim (value_at (as_boolean a) idx (is_null a idx)) [
    | none ↦ true
    | some b ↦ b
  ]

  unfoldable pub bound_at : Option Array → ℕ → Option ℤ
  unfolding signed_value
  bound_at none idx = none
  bound_at (some a) idx = signed_value a idx

  -- The two flags in the order of the code's loop over them.
  any_truncated : List Array → Statistics → ℕ → Result Bool
  unfolding column maybe_truncated
  any_truncated fields s idx = do
    lo ← column fields s.min_truncated
    if maybe_truncated lo idx
        then ok true
        else do hi ← column fields s.max_truncated; ok (maybe_truncated hi idx)

  by_columns : List Array → (lo hi : Option ℕ) → ℕ → Predicate → Bool → Result Bool
  unfolding column bound_at by_bounds
  by_columns fields lo hi idx p non_null = do
    a ← column fields lo
    b ← column fields hi
    ok (by_bounds p non_null (bound_at a idx) (bound_at b idx))

  by_statistics : List Array → Statistics → ℕ → Predicate → Bool → Result Bool
  unfolding is_none any_truncated by_columns
  by_statistics fields s idx p non_null =
      if is_none s.min_field || is_none s.max_field then ok false else do
        truncated ← any_truncated fields s idx
        if truncated then ok false else by_columns fields s.min_field s.max_field idx p non_null

  after_nulls : List Array → Statistics → ℕ → Predicate → NullCheck → Result Bool
  unfolding by_statistics
  after_nulls fields s idx p unreliable = ok false
  after_nulls fields s idx p all_null = ok true
  after_nulls fields s idx p (known_non_null b) = by_statistics fields s idx p b

  -- What follows the load: row `idx` of the table describes `zone_rows` rows.
  pub judge : Array → List Array → Statistics → (idx zone_rows : ℕ) → Predicate → Result Bool
  unfolding column null_count_at null_check after_nulls
  judge table fields s idx zone_rows p = if is_null table idx then ok false else do
    nulls ← column fields s.null_field
    after_nulls fields s idx p (null_check (null_count_at nulls idx) zone_rows p.op)

  -- The table as loaded: the array and its fields, or nothing.
  abbrev pub Table : Type 0
  Table = Array × List Array

  -- The rows that the zone at `idx` describes.
  unfoldable pub zone_rows : ZoneRef Table → ℕ → ℕ
  zone_rows z idx = min z.zone_len (z.end - (z.start + idx * z.zone_len))

  pub judge_loaded : ZoneRef Table → Option Table → ℕ → Predicate → Result (ℕ × Bool)
  unfolding judge zone_rows
  judge_loaded z none pos p = ok (zone_end z pos, false)
  judge_loaded z (some (table, fields)) pos p =
      let idx = (pos - z.start) / z.zone_len in
      do skip ← judge table fields z.stats idx (zone_rows z idx) p; ok (zone_end z pos, skip)

  -- The reference gives up its statistics for good.
  pub give_up : ZoneRef Table → Result (ℕ × Bool) × ZoneRef Table
  give_up z = (ok (z.end, false), record z { zone_len = 0; loaded = true })

  -- `a.(*array.Struct)` and the length of the decoded table
  pub accept :
      ZoneRef Table
      → ℕ
      → Predicate
      → Array
      → Option (List Array)
      → Result (ℕ × Bool) × ZoneRef Table
  unfolding give_up judge_loaded
  accept z pos p a none = give_up z
  accept z pos p a (some fields) =
      if len a == rows z.node
      then (let z' = record z { loaded = true; values = some (a, fields) } in
          (judge_loaded z' (some (a, fields)) pos p, z'))
      else give_up z

  pub decoded : ZoneRef Table → ℕ → Predicate → Result Array → Result (ℕ × Bool) × ZoneRef Table
  unfolding give_up accept
  decoded z pos p (err e) =
      if is_cancellation e then (err e, record z { loaded = true }) else give_up z
  decoded z pos p (ok a) = accept z pos p a (as_struct a)

  module _ {World : Type 0} (decode_layout : Layout → VortexType → Action World Array) where
    -- z.evaluate: the end of the zone, whether to skip to it, the reference and the world after it.
    unfoldable pub evaluate :
        ZoneRef Table → ℕ → Predicate → World → Result (ℕ × Bool) × ZoneRef Table × World
    unfolding judge_loaded decoded
    evaluate z pos p w =
        if z.zone_len == 0
        then (ok (z.end, false), z, w)
        else if z.loaded
        then (judge_loaded z z.values pos p, z, w)
        else (let (r, w') = decode_layout z.node z.dtype w in
            let (out, z') = decoded z pos p r in (out, z', w'))
