-- ===== src/ArrayLib.antt =====
-- What the scan uses of the Arrow library (github.com/apache/arrow-go), which is not part of the
-- repository: a parameter of the model.
use vortex_go.Base.{ℕ, Bool, Option, List, String}
use vortex_go.Base.Int.{ℤ}
use vortex_go.Outcome.{Result}
use vortex_go.Schema.{VortexType}

pub record ArrayLib : Type 1 where
  -- arrow.Array
  pub Array : Type 0
  -- a.Len(), a.IsNull(i), a.NullN()
  pub len : Array → ℕ
  pub is_null : Array → ℕ → Bool
  pub null_n : Array → ℕ
  -- the type switches: `none` where the array has another type
  pub as_struct : Array → Option (List Array)
  pub as_uint64 : Array → Option (ℕ → ℕ)
  pub as_boolean : Array → Option (ℕ → Bool)
  -- Int8, Int16, Int32 and Int64 values, as int64
  pub as_signed : Array → Option (ℕ → ℤ)
  -- array.NewSlice, array.Concatenate, array.NewStructArrayWithFields, a builder's empty array
  pub slice : Array → ℕ → ℕ → Array
  pub concatenate : List Array → Result Array
  pub struct_of : List (Array × (String × Bool)) → Result Array
  pub empty : VortexType → Result Array
  -- compute.TakeArray
  pub take : Array → Array → Result Array
