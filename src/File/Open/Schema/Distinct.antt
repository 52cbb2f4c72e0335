-- ===== src/File/Open/Schema/Distinct.antt =====
-- The columns of an opened file have distinct names, those of its type.
use vortex_go.Base.{String, false, List, [], ◌∷◌, ◌≡◌, map, ap, sym, ◌∙◌}
use vortex_go.Outcome.{ok, >>=-eq-ok, refuse-eq-ok, ok-injective}
use vortex_go.Schema.{Fields, no_fields, field}
use vortex_go.Schema.Arrow.{ArrowTypes, ArrowField}
use vortex_go.File.Open.Schema.{is_seen, column_type, build_columns, build_schema}

abbrev pub field_names : Fields → List String
field_names no_fields = []
field_names (field name t fs) = name ∷ field_names fs

-- Each name is none of those before it, and none of `seen`.
abbrev pub IsFresh : (seen : List String) → List String → Type 0
IsFresh seen [] = Unit
IsFresh seen (name ∷ names) = (is_seen name seen ≡ false) × IsFresh (name ∷ seen) names

abbrev pub schema_names : {DataType : Type 0} → List (ArrowField DataType) → List String
schema_names fields = map (λ f. f.name) fields

module _ (arrow : ArrowTypes) where
  build_columns-IsFresh :
      (fs : Fields) (seen : List String) (out : List (ArrowField arrow.DataType))
      → build_columns arrow fs seen ≡ ok out
      → (schema_names out ≡ field_names fs) × IsFresh seen (field_names fs)
  unfolding build_columns
  build_columns-IsFresh no_fields seen out h = (ap schema_names (sym (ok-injective h)), tt)
  build_columns-IsFresh (field name t fs) seen out h =
      let (new, h1) = refuse-eq-ok (is_seen name seen) _ _ h in
      let (d, p, h2) = >>=-eq-ok (column_type arrow t) _ h1 in
      let (rest, q, h3) = >>=-eq-ok (build_columns arrow fs (name ∷ seen)) _ h2 in
      let (same, fresh) = build_columns-IsFresh fs (name ∷ seen) rest q in
      (ap schema_names (sym (ok-injective h3)) ∙ ap (λ ns. name ∷ ns) same, (new, fresh))

  pub build_schema-IsFresh :
      (fs : Fields) (out : List (ArrowField arrow.DataType))
      → build_schema arrow fs ≡ ok out
      → (schema_names out ≡ field_names fs) × IsFresh [] (field_names fs)
  unfolding build_schema
  build_schema-IsFresh fs out h = build_columns-IsFresh fs [] out h
