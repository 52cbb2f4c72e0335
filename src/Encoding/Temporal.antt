-- ===== src/Encoding/Temporal.antt =====
-- `datetimeParts` of internal/encoding/temporal_delta.go: days, seconds and parts of a second.
pub mod Parts
use vortex_go.Base.{
  ℕ, zero, suc, ◌+◌, ◌-◌, ◌*◌, Bool, true, false, not, ◌&&◌, ◌||◌, Option, none, some, List, [],
  ◌∷◌, ltb, leb, ◌==◌, if◌then◌else◌,
}
use vortex_go.Base.Int.{ℤ}
use vortex_go.Outcome.{Result, ok, err, failed, refuse}
use vortex_go.Outcome.Act.{pure, raise, lift, ◌>>=◌, ◌>>◌}
use vortex_go.Schema.{VortexType, Kind, info, kind_of, is_kind, is_integer, is_nullable}
use vortex_go.Schema.Arrow.{ArrowTypes, arrow_type}
use vortex_go.Encoding.Proto.{Proto, num}
use vortex_go.Encoding.Values.{
  Values, values, Node, Decode, bits_of, valid_of, with_bits, with_valid, count_children, empty,
  index,
}
use vortex_go.Encoding.Numeric.Primitive.{primitive_type, ChildDecoder, child}
use vortex_go.Encoding.Temporal.Parts.{part_of, datetime_rows}
use text.Mathlib.Text.{◌==◌ as str_eq}

-- The unit of a timestamp: its first byte of metadata
timestamp_unit : VortexType → Result ℕ
timestamp_unit t =
    if not (is_kind (kind_of t) Kind.extension)
      || not (str_eq (info t).extension_id "vortex.timestamp")
    then err (failed "datetime parts requires timestamp")
    else elim (info t).metadata [
      | [] ↦ err (failed "datetime parts requires timestamp")
      | u ∷ us ↦ if ltb 3 u then err (failed "datetime parts requires timestamp") else ok u
    ]

-- []int64{1000000000, 1000000, 1000, 1}[u]
factor : ℕ → ℕ
factor u = if u == 0 then 1000000000 else if u == 1 then 1000000 else if u == 2 then 1000 else 1

type_of : Values → VortexType
type_of (values t n s fs) = t

-- What `set` reads from a part.
numbers : Values → ℕ → Result ℤ
unfolding type_of part_of
numbers v i = elim (index (bits_of v) i) [
  | err e ↦ err e
  | ok x ↦ ok (part_of (kind_of (type_of v)) x)
]

module _ (arrow : ArrowTypes) (decode_child : ChildDecoder) where
  -- One turn of the loop over the parts.
  part : Node → ℕ → (nullable : Bool) → ℕ → Proto → Decode Values
  part n i nullable rows m = do
    pt ← lift (primitive_type (num m (i + 1)) nullable)
    lift (refuse (not (is_integer (kind_of pt))) (failed "datetime part must be integer"))
    child decode_child n i pt rows

  arrow_ok : VortexType → Result (Unit {0})
  unfolding arrow_type
  arrow_ok t = elim (arrow_type arrow t) [ ok d ↦ ok tt | err e ↦ err e ]

  -- d.datetimeParts(n, t, length, m)
  unfoldable pub datetime_parts : Node → VortexType → ℕ → Proto → Decode Values
  unfolding timestamp_unit factor numbers part arrow_ok datetime_rows
  datetime_parts n t rows m = do
    u ← lift (timestamp_unit t)
    lift (arrow_ok t)
    lift (count_children n 3)
    days ← part n 0 (is_nullable t) rows m
    seconds ← part n 1 false rows m
    subs ← part n 2 false rows m
    out ← empty t rows
    bits ← lift (
        datetime_rows rows 0 (factor u) (valid_of days) (numbers days) (numbers seconds)
          (numbers subs))
    pure (with_bits bits (with_valid (valid_of days) out))
