-- ===== src/Tests/Toy.antt =====
-- A small array library and a small file of one column, for the tests of the scan.
use vortex_go.Base.{ℕ, false, Option, none, some, List, [], ◌∷◌, length, get_or}
use vortex_go.Base.Int.{ℤ, pos}
use vortex_go.Outcome.{ok, err, failed}
use vortex_go.Schema.{VortexType, simple, Kind}
use vortex_go.Layout.{Layout, layout, nil, cons, LayoutId, Header}
use vortex_go.ArrayLib.{ArrayLib}
use vortex_go.Wire.{ProtoWire}

-- Columns of integers, and a table of minima and maxima.
pub data ToyArray : Type 0 where
  ints : List ℤ → ToyArray
  table : List ℤ → List ℤ → ToyArray

abbrev toy_len : ToyArray → ℕ
toy_len (ints xs) = length xs
toy_len (table lo hi) = length lo

abbrev toy_struct : ToyArray → Option (List ToyArray)
toy_struct (ints xs) = none
toy_struct (table lo hi) = some (ints lo ∷ (ints hi ∷ []))

abbrev toy_signed : ToyArray → Option (ℕ → ℤ)
toy_signed (ints xs) = some (λ i. get_or xs i (pos 0))
toy_signed (table lo hi) = none

abbrev pub toy : ArrayLib
toy = record {
  Array = ToyArray;
  len = toy_len;
  is_null = λ a i. false;
  null_n = λ a. 0;
  as_struct = toy_struct;
  as_uint64 = λ a. none;
  as_boolean = λ a. none;
  as_signed = toy_signed;
  slice = λ a i j. a;
  concatenate = λ as'. err (failed "toy");
  struct_of = λ cols. err (failed "toy");
  empty = λ t. ok (ints []);
  take = λ a b. ok a;
}

-- A wire reader that knows no message.
abbrev pub no_wire : ProtoWire
no_wire = record {
  consume_tag = λ b. none;
  consume_varint = λ b. none;
  consume_bytes = λ b. none;
  consume_fixed32 = λ b. none;
  consume_fixed64 = λ b. none;
}

abbrev pub rows_of : ℕ → Header
rows_of n = record { address = n; rows = n; metadata = []; segments = [] }

abbrev pub flat_layout : ℕ → Layout
flat_layout n = layout LayoutId.flat (rows_of n) nil

-- Two flat chunks of two and three rows.
abbrev pub chunks : Layout
chunks = layout LayoutId.chunked (rows_of 5) (cons (flat_layout 2) (cons (flat_layout 3) nil))

abbrev pub int_type : VortexType
int_type = simple Kind.i64 false
