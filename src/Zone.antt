-- ===== src/Zone.antt =====
-- Zone maps (prune.go): `zoneRef`, `zoneSchema` and `newZoneRef`.
pub mod Schema
pub mod Evaluate
use vortex_go.Base.{
  ℕ, ◌+◌, ◌/◌, ◌%◌, ◌≡◌, arith, String, Bool, true, false, ◌||◌, Option, none, some, ltb, ◌==◌,
  if◌then◌else◌,
}
use vortex_go.Outcome.{Result, ok, err}
use vortex_go.Schema.{VortexType, Fields, no_fields, field, fields_of, simple, Kind}
use vortex_go.Layout.{Layout, Layouts, nil, cons, layout, rows}
use vortex_go.Wire.{ProtoWire}
use Schema.{zone_schema}
use text.Mathlib.Text.{starts_with, ◌==◌ as str_eq}

-- Which fields of the table hold which statistic; -1 is `none`.
pub record Statistics : Type 0 where
  pub min_field : Option ℕ
  pub max_field : Option ℕ
  pub null_field : Option ℕ
  pub min_truncated : Option ℕ
  pub max_truncated : Option ℕ

-- `zoneRef`. `values` is the loaded table, of the type of arrays.
pub record ZoneRef (A : Type 0) : Type 0 where
  pub start : ℕ
  pub end : ℕ
  pub zone_len : ℕ
  pub node : Layout
  pub dtype : VortexType
  pub stats : Statistics
  pub loaded : Bool
  pub values : Option A

abbrev no_statistics : Statistics
no_statistics = record {
  min_field = none;
  max_field = none;
  null_field = none;
  min_truncated = none;
  max_truncated = none;
}

-- The switch over the field names: a later field of the same name replaces an earlier one.
name_statistic : String → ℕ → Statistics → Statistics
name_statistic name i s =
    if str_eq name "min" || starts_with "vortex.min(" name
    then record s { min_field = some i }
    else if str_eq name "max" || starts_with "vortex.max(" name
    then record s { max_field = some i }
    else if str_eq name "null_count" || str_eq name "vortex.null_count()"
    then record s { null_field = some i }
    else if str_eq name "min_is_truncated"
    then record s { min_truncated = some i }
    else if str_eq name "max_is_truncated"
    then record s { max_truncated = some i }
    else s

find_statistics : Fields → ℕ → Statistics → Statistics
unfolding name_statistic
find_statistics no_fields i s = s
find_statistics (field name t fs) i s = find_statistics fs (i + 1) (name_statistic name i s)

-- l.rows / zoneLen, rounded up
pub zone_count : ℕ → ℕ → ℕ
zone_count n zone_len = if n % zone_len == 0 then n / zone_len else n / zone_len + 1

module _ {A : Type 0} where
  -- A zone reference with no statistics: it never skips.
  unusable : Layout → Layout → ℕ → ZoneRef A
  unusable l stats_node start = record {
    start = start;
    end = start + rows l;
    zone_len = 0;
    node = stats_node;
    dtype = simple Kind.null false;
    stats = no_statistics;
    loaded = false;
    values = none;
  }

  usable : Layout → Layout → ℕ → ℕ → VortexType → ZoneRef A
  unfolding unusable zone_count find_statistics
  usable l stats_node start zone_len dt =
      if rows stats_node == zone_count (rows l) zone_len
      then record (unusable l stats_node start) {
        zone_len = zone_len;
        dtype = dt;
        stats = find_statistics (fields_of dt) 0 no_statistics;
      }
      else unusable l stats_node start

  checked : Layout → Layout → ℕ → Result (ℕ × VortexType) → ZoneRef A
  unfolding usable
  checked l stats_node start (err e) = unusable l stats_node start
  checked l stats_node start (ok (zone_len, dt)) =
      if zone_len == 0 then unusable l stats_node start else usable l stats_node start zone_len dt

  -- newZoneRef, with l.children[1] given
  unfoldable pub new_zone_ref : ProtoWire → Layout → Layout → VortexType → ℕ → ZoneRef A
  unfolding checked
  new_zone_ref w l stats_node t start = checked l stats_node start (zone_schema w l t)

-- A reference stands for the rows of its layout, whatever the metadata say.
pub new_zone_ref_rows :
    (A : Type 0) (w : ProtoWire) (l n : Layout) (t : VortexType) (start : ℕ)
    → ((new_zone_ref {A = A} w l n t start).start ≡ start)
      × ((new_zone_ref {A = A} w l n t start).end ≡ start + rows l)
unfolding new_zone_ref
new_zone_ref_rows A w l n t start = ground arith
