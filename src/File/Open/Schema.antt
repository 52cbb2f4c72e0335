-- ===== src/File/Open/Schema.antt =====
-- The loop of `Open` over the columns (file.go).
pub mod Distinct
use vortex_go.Base.{
  String, Bool, true, false, ◌||◌, List, [], ◌∷◌, ◌≡◌, ◌≢◌, refl, map, subst, ap, sym, All,
}
use vortex_go.Outcome.{
  Error, Result, ok, err, invalid, unsupported, failed, canceled, deadline_exceeded, panic, refuse,
  ◌>>=◌, ◌>>◌, >>=-eq-ok, refuse-eq-ok, ok-injective,
}
use vortex_go.Schema.{VortexType, Fields, no_fields, field, is_nullable}
use vortex_go.Schema.Arrow.{ArrowTypes, ArrowField, arrow_type}
use text.Mathlib.Text.{◌==◌ as str_eq}

-- seen[name]; a name is put in front
abbrev pub is_seen : String → List String → Bool
is_seen name [] = false
is_seen name (s ∷ ss) = str_eq s name || is_seen name ss

-- What the error of a column becomes; a panic goes on.
column_error : Error → Error
column_error panic = panic
column_error e = unsupported "column"

module _ (arrow : ArrowTypes) where
  column_type : VortexType → Result arrow.DataType
  unfolding column_error arrow_type
  column_type t = elim (arrow_type arrow t) [ ok d ↦ ok d | err e ↦ err (column_error e) ]

  build_columns : Fields → (seen : List String) → Result (List (ArrowField arrow.DataType))
  unfolding column_type
  build_columns no_fields seen = ok []
  build_columns (field name t fs) seen = do
    refuse (is_seen name seen) (invalid "duplicate column")
    d ← column_type t
    rest ← build_columns fs (name ∷ seen)
    ok (record { name = name; dtype = d; nullable = is_nullable t } ∷ rest)

  unfoldable pub build_schema : Fields → Result (List (ArrowField arrow.DataType))
  unfolding build_columns
  build_schema fs = build_columns fs []
