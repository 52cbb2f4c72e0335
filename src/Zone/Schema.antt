-- ===== src/Zone/Schema.antt =====
-- `zoneSchema` of prune.go: the zone length and the type of the statistics table, from the
-- metadata of a "vortex.stats" or a "vortex.zoned" layout.
use vortex_go.Base.{
  ℕ, zero, suc, ◌+◌, ◌*◌, ◌-◌, ◌/◌, ◌%◌, ◌^◌, String, Bool, true, false, not, ◌&&◌, ◌||◌, Option,
  none, some, List, [], ◌∷◌, bit_and, length, drop, get_or, ltb, ◌==◌, if◌then◌else◌,
}
use vortex_go.Outcome.{Result, ok, err, failed, refuse, ◌>>=◌, ◌>>◌}
use vortex_go.Schema.{
  VortexType, Fields, no_fields, add_field, vtype, simple, is_signed, kind_of, with_nullable, Kind,
  no_storage, info,
}
use vortex_go.Layout.{Layout, layout, LayoutId}
use vortex_go.Wire.{
  ProtoWire, ProtoValue, ProtoFields, WireType, varint, bytes, values_of, proto_fields,
}
use Prim.Native.Char.{code}
use text.Mathlib.Text.{◌==◌ as str_eq}

-- The first four bytes as a little-endian number.
pub little_endian_32 : List ℕ → ℕ
little_endian_32 b =
    get_or b 0 0 + get_or b 1 0 * 2 ^ 8 + get_or b 2 0 * 2 ^ 16 + get_or b 3 0 * 2 ^ 24

-- bits[i/8]&(1<<uint(i%8)) != 0
bit_set : List ℕ → ℕ → Bool
bit_set bits i = not (bit_and (get_or bits (i / 8) 0) (2 ^ (i % 8)) == 0)

-- The fields that statistic `i` of the legacy bit set adds to the table.
legacy_statistic : ℕ → VortexType → Fields → Result Fields
legacy_statistic i column fs =
    if i == 0
    then ok (add_field fs "is_constant" (simple Kind.bool true))
    else if i == 1
    then ok (add_field fs "is_sorted" (simple Kind.bool true))
    else if i == 2
    then ok (add_field fs "is_strict_sorted" (simple Kind.bool true))
    else if i == 3
    then ok (add_field (add_field fs "max" column) "max_is_truncated" (simple Kind.bool false))
    else if i == 4
    then ok (add_field (add_field fs "min" column) "min_is_truncated" (simple Kind.bool false))
    else if i == 5
    then ok (add_field fs "sum" (simple Kind.i64 true))
    else if i == 6
    then ok (add_field fs "null_count" (simple Kind.u64 true))
    else if i == 7
    then ok (add_field fs "uncompressed_size_in_bytes" (simple Kind.u64 true))
    else if i == 8
    then ok fs
    else err (failed "unknown legacy statistic")

-- for i := 0; i < len(bits)*8; i++, with the rounds left
legacy_statistics : (left i : ℕ) → List ℕ → VortexType → Fields → Result Fields
unfolding bit_set legacy_statistic
legacy_statistics zero i bits column fs = ok fs
legacy_statistics (suc left) i bits column fs = do
  fs' ← if bit_set bits i then legacy_statistic i column fs else ok fs
  legacy_statistics left (i + 1) bits column fs'

legacy_schema : List ℕ → VortexType → Result (ℕ × VortexType)
unfolding legacy_statistics little_endian_32
legacy_schema metadata column = do
  refuse (ltb (length metadata) 4) (failed "truncated legacy zone metadata")
  let bits = drop 4 metadata
  refuse (ltb 2 (length bits)) (failed "unknown legacy zone statistics")
  fs ← legacy_statistics (length bits * 8) 0 bits column no_fields
  ok (little_endian_32 metadata, vtype (info (simple Kind.struct false)) fs no_storage)

-- The aggregate identifiers that zoneSchema knows.
pub data Aggregate : Type 0 where
  min max sum null_count count uncompressed_size nan_count unknown : Aggregate

bytes_eq : List ℕ → List ℕ → Bool
bytes_eq [] [] = true
bytes_eq [] (y ∷ ys) = false
bytes_eq (x ∷ xs) [] = false
bytes_eq (x ∷ xs) (y ∷ ys) = x == y && bytes_eq xs ys

codes : String → List ℕ
codes String.[] = []
codes (String.◌∷◌ c s) = code c ∷ codes s

-- string(fields[1][0].bytes)
aggregate_of : List ℕ → Aggregate
unfolding bytes_eq codes
aggregate_of b =
    if bytes_eq b (codes "vortex.min")
    then min
    else if bytes_eq b (codes "vortex.max")
    then max
    else if bytes_eq b (codes "vortex.sum")
    then sum
    else if bytes_eq b (codes "vortex.null_count")
    then null_count
    else if bytes_eq b (codes "vortex.count")
    then count
    else if bytes_eq b (codes "vortex.uncompressed_size_in_bytes")
    then uncompressed_size
    else if bytes_eq b (codes "vortex.nan_count")
    then nan_count
    else unknown

is_varint : WireType → Bool
is_varint varint = true
is_varint k = false

is_bytes : WireType → Bool
is_bytes bytes = true
is_bytes k = false

-- for field := range m { if field != 1 && field != 2 { ... } }
only_one_or_two : ProtoFields → Bool
only_one_or_two [] = true
only_one_or_two ((k, v) ∷ fs) = (k == 1 || k == 2) && only_one_or_two fs

-- The one value of a tag that must stand exactly once with the given wire type.
single : (WireType → Bool) → List ProtoValue → String → Result ProtoValue
single test [] m = err (failed m)
single test (v ∷ (w ∷ vs)) m = err (failed m)
single test (v ∷ []) m = if test v.kind then ok v else err (failed m)

-- The loop over the options of min, max and sum: at most one option, tag 1, a varint 0 or 1.
skip_nans : ProtoFields → Result Bool
unfolding is_varint
skip_nans [] = ok false
skip_nans ((k, v) ∷ (e ∷ fs)) = err (failed "unknown aggregate options")
skip_nans ((k, v) ∷ []) =
    if not (k == 1) || not (is_varint v.kind) || ltb 1 v.number
    then err (failed "unknown aggregate options")
    else ok (not (v.number == 0))

-- v := fields[2][len-1]; opts is nil where the field is absent
last_options : List ProtoValue → Result (List ℕ)
unfolding is_bytes
last_options [] = ok []
last_options (v ∷ (w ∷ vs)) = last_options (w ∷ vs)
last_options (v ∷ []) =
    if is_bytes v.kind then ok v.content else err (failed "invalid aggregate options")

-- The name and the type of the field that an aggregate adds; `none` for nan_count.
abbrev Added : Type 0
Added = Option (String × VortexType)

with_options : String → String → VortexType → Bool → Added
with_options empty explicit t skip = some (if skip then empty else explicit, t)

no_options : List ℕ → Added → Result Added
no_options [] a = ok a
no_options (b ∷ bs) a = err (failed "unknown empty aggregate options")

module _ (w : ProtoWire) where
  aggregate_field : Aggregate → List ℕ → VortexType → Result Added
  unfolding skip_nans with_options no_options
  aggregate_field min opts column = do
    skip ← skip_nans (← proto_fields w opts)
    ok (with_options "vortex.min()" "vortex.min(skip_nans=false)" column skip)
  aggregate_field max opts column = do
    skip ← skip_nans (← proto_fields w opts)
    ok (with_options "vortex.max()" "vortex.max(skip_nans=false)" column skip)
  aggregate_field sum opts column = do
    skip ← skip_nans (← proto_fields w opts)
    ok (with_options "vortex.sum()" "vortex.sum(skip_nans=false)" (simple Kind.i64 true) skip)
  aggregate_field null_count opts column =
      no_options opts (some ("vortex.null_count()", simple Kind.u64 true))
  aggregate_field count opts column =
      no_options opts (some ("vortex.count()", simple Kind.u64 true))
  aggregate_field uncompressed_size opts column =
      no_options opts (some ("vortex.uncompressed_size_in_bytes()", simple Kind.u64 true))
  aggregate_field nan_count opts column = no_options opts none
  aggregate_field unknown opts column = err (failed "unknown aggregate")

  -- One round of the loop over m[2].
  aggregate : ProtoValue → VortexType → Result Added
  unfolding is_bytes only_one_or_two single last_options aggregate_of aggregate_field
  aggregate spec column = do
    refuse (not (is_bytes spec.kind)) (failed "invalid aggregate")
    fields ← proto_fields w spec.content
    refuse (not (only_one_or_two fields)) (failed "unknown aggregate metadata field")
    id ← single is_bytes (values_of fields 1) "missing aggregate id"
    opts ← last_options (values_of fields 2)
    aggregate_field (aggregate_of id.content) opts column

  seen_in : List String → String → Bool
  seen_in [] name = false
  seen_in (s ∷ ss) name = str_eq s name || seen_in ss name

  add_aggregate : Added → Fields → List String → Result (Fields × List String)
  unfolding seen_in
  add_aggregate none fs seen = ok (fs, seen)
  add_aggregate (some (name, t)) fs seen =
      if seen_in seen name
      then err (failed "duplicate zone aggregate")
      else ok (add_field fs name t, name ∷ seen)

  aggregates : List ProtoValue → VortexType → Fields → List String → Result Fields
  unfolding aggregate add_aggregate
  aggregates [] column fs seen = ok fs
  aggregates (spec ∷ specs) column fs seen = do
    added ← aggregate spec column
    (fs', seen') ← add_aggregate added fs seen
    aggregates specs column fs' seen'

  zoned_schema : List ℕ → VortexType → Result (ℕ × VortexType)
  unfolding only_one_or_two single is_varint aggregates
  zoned_schema metadata column = do
    refuse (ltb (length metadata) 2 || not (get_or metadata 0 0 == 1))
        (failed "unknown zoned metadata version")
    m ← proto_fields w (drop 1 metadata)
    refuse (not (only_one_or_two m)) (failed "unknown zoned metadata field")
    zone_len ← single is_varint (values_of m 1) "invalid zone length"
    refuse (ltb (2 ^ 32 - 1) zone_len.number) (failed "invalid zone length")
    fs ← aggregates (values_of m 2) column no_fields []
    ok (zone_len.number, vtype (info (simple Kind.struct false)) fs no_storage)

  schema_of : LayoutId → List ℕ → VortexType → Result (ℕ × VortexType)
  unfolding legacy_schema zoned_schema
  schema_of LayoutId.stats metadata column = legacy_schema metadata column
  schema_of LayoutId.zoned metadata column = zoned_schema metadata column
  schema_of id metadata column = err (failed "unknown zone layout")

  unfoldable pub zone_schema : Layout → VortexType → Result (ℕ × VortexType)
  unfolding schema_of
  zone_schema (layout id h cs) t =
      if not (is_signed (kind_of t))
      then err (failed "non-integer zone map")
      else schema_of id h.metadata (with_nullable true t)
