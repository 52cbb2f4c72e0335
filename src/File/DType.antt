-- ===== src/File/DType.antt =====
-- `parseType` of dtype.go.
use vortex_go.Base.{
  ℕ, zero, suc, ◌+◌, ◌-◌, ◌^◌, String, Bool, true, Option, none, some, List, [], ltb, not, ◌==◌,
}
use vortex_go.Base.Int.{ℤ, pos}
use vortex_go.Outcome.{Result, ok, err, invalid, unsupported, refuse, Action}
use vortex_go.Outcome.Act.{pure, raise, lift, ◌>>=◌, ◌>>◌}
use vortex_go.Schema.{
  Kind, VortexType, vtype, Fields, no_fields, field, no_storage, stored, simple, is_nullable,
}
use vortex_go.Encoding.Numeric.Primitive.{primitive_kind}
use vortex_go.File.Tables.{Tables, TypeView, Text}
use vortex_go.File.Limits.{check_count, node_budget, copy_text}

-- kinds[t.Ptype()]
kind_of_ptype : ℕ → Result Kind
unfolding primitive_kind
kind_of_ptype p = elim (primitive_kind p) [ none ↦ err (invalid "primitive dtype") | some k ↦ ok k ]

-- The fields that each sort of type fills; the others are Go's zero values.
abbrev decimal_type : (precision scale : ℤ) → Bool → VortexType
decimal_type p s n =
    vtype
      (record {
        kind = Kind.decimal;
        nullable = n;
        extension_id = "";
        metadata = [];
        precision = p;
        scale = s;
        list_size = pos 0;
      })
      no_fields no_storage

abbrev pub struct_type : Fields → Bool → VortexType
struct_type fs n =
    vtype
      (record {
        kind = Kind.struct;
        nullable = n;
        extension_id = "";
        metadata = [];
        precision = pos 0;
        scale = pos 0;
        list_size = pos 0;
      })
      fs no_storage

abbrev pub extension_type : String → List ℕ → VortexType → VortexType
extension_type id m storage =
    vtype
      (record {
        kind = Kind.extension;
        nullable = is_nullable storage;
        extension_id = id;
        metadata = m;
        precision = pos 0;
        scale = pos 0;
        list_size = pos 0;
      })
      no_fields (stored storage)

abbrev pub list_type : Kind → (size : ℕ) → VortexType → Bool → VortexType
list_type k size storage n =
    vtype
      (record {
        kind = k;
        nullable = n;
        extension_id = "";
        metadata = [];
        precision = pos 0;
        scale = pos 0;
        list_size = pos size;
      })
      no_fields (stored storage)

module _ (tables : Tables) where
  open tables use {TypeTable, type_view}

  -- A child that is a pointer: parseType refuses nil.
  pub parse_pointer :
      (parse : TypeTable → Action ℕ VortexType) → Option TypeTable → Action ℕ VortexType
  parse_pointer parse none = raise (invalid "missing dtype")
  parse_pointer parse (some v) = parse v

  -- The loop over the fields: `n` are left, from i on.
  pub parse_fields :
      (parse : TypeTable → Action ℕ VortexType)
      → (dtype : ℕ → Result TypeTable) → (name : ℕ → Result Text) → (n i : ℕ) → Action ℕ Fields
  unfolding copy_text
  parse_fields parse dtype name zero i = pure no_fields
  parse_fields parse dtype name (suc n) i = do
    c ← lift (dtype i)
    t ← parse c
    text ← lift (name i)
    s ← copy_text text
    fs ← parse_fields parse dtype name n (i + 1)
    pure (field s t fs)

  -- The switch of parseType.
  pub parse_union :
      (parse : TypeTable → Action ℕ VortexType) → TypeView TypeTable → Action ℕ VortexType
  unfolding parse_pointer parse_fields kind_of_ptype check_count copy_text
  parse_union parse TypeView.missing = raise (invalid "missing dtype union")
  parse_union parse TypeView.null = pure (simple Kind.null true)
  parse_union parse (TypeView.bool n) = pure (simple Kind.bool n)
  parse_union parse (TypeView.utf8 n) = pure (simple Kind.utf8 n)
  parse_union parse (TypeView.binary n) = pure (simple Kind.binary n)
  parse_union parse (TypeView.primitive p n) = do k ← lift (kind_of_ptype p); pure (simple k n)
  parse_union parse (TypeView.decimal p s n) = pure (decimal_type p s n)
  parse_union parse (TypeView.struct names dtypes bytes dtype name n) = do
    lift (refuse (not (names == dtypes)) (invalid "struct fields"))
    lift (check_count names bytes 4)
    fs ← parse_fields parse dtype name names 0
    pure (struct_type fs n)
  parse_union parse (TypeView.extension id m storage) = do
    s ← copy_text id
    t ← parse_pointer parse storage
    pure (extension_type s m t)
  parse_union parse (TypeView.list element n) = do
    t ← parse_pointer parse element
    pure (list_type Kind.list 0 t n)
  parse_union parse (TypeView.fixed_size_list size element n) = do
    lift (refuse (ltb (2 ^ 31 - 1) size) (invalid "list size"))
    t ← parse_pointer parse element
    pure (list_type Kind.fixed_size_list size t n)
  parse_union parse TypeView.unknown = raise (unsupported "dtype")

  -- parseType(v, depth, budget) of a v that is not nil, where `levels` more levels may open
  unfoldable pub parse_type : (levels : ℕ) → TypeTable → Action ℕ VortexType
  unfolding parse_union node_budget
  parse_type zero v = raise (invalid "metadata nesting or node count")
  parse_type (suc levels) v = do
    node_budget
    view ← lift (type_view v)
    parse_union (parse_type levels) view
