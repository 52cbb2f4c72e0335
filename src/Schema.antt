-- ===== src/Schema.antt =====
-- The logical types of internal/encoding/types.go: `Kind`, `Type`, `Field` and their predicates.
-- A Go `Kind` is a string, and the program makes no other than these.
pub mod Arrow
use vortex_go.Base.{ℕ, zero, suc, String, Bool, true, false, Option, none, some, List, ◌==◌}
use vortex_go.Base.Int.{ℤ}

pub data Kind : Type 0 where
  null bool u8 u16 u32 u64 i8 i16 i32 i64 f16 f32 f64 : Kind
  utf8 binary decimal struct list fixed_size_list extension : Kind

-- The position of a kind in the list above, for the comparisons of kinds.
abbrev kind_index : Kind → ℕ
kind_index null = 0
kind_index bool = 1
kind_index u8 = 2
kind_index u16 = 3
kind_index u32 = 4
kind_index u64 = 5
kind_index i8 = 6
kind_index i16 = 7
kind_index i32 = 8
kind_index i64 = 9
kind_index f16 = 10
kind_index f32 = 11
kind_index f64 = 12
kind_index utf8 = 13
kind_index binary = 14
kind_index decimal = 15
kind_index struct = 16
kind_index list = 17
kind_index fixed_size_list = 18
kind_index extension = 19

abbrev pub is_kind : Kind → Kind → Bool
is_kind j k = kind_index j == kind_index k

-- The fields of `Type` that hold no other type.
pub record TypeInfo : Type 0 where
  pub kind : Kind
  pub nullable : Bool
  pub extension_id : String
  pub metadata : List ℕ
  pub precision : ℤ
  pub scale : ℤ
  pub list_size : ℤ

-- A `Type` with its `Fields` and its `Storage` pointer.
mutual
  pub data VortexType : Type 0 where
    vtype : TypeInfo → Fields → Storage → VortexType

  pub data Fields : Type 0 where
    no_fields : Fields
    field : String → VortexType → Fields → Fields

  pub data Storage : Type 0 where
    no_storage : Storage
    stored : VortexType → Storage

abbrev pub info : VortexType → TypeInfo
info (vtype i fs s) = i

abbrev pub kind_of : VortexType → Kind
kind_of t = (info t).kind

abbrev pub is_nullable : VortexType → Bool
is_nullable t = (info t).nullable

abbrev pub fields_of : VortexType → Fields
fields_of (vtype i fs s) = fs

abbrev pub with_nullable : Bool → VortexType → VortexType
with_nullable b (vtype i fs s) = vtype (record i { nullable = b }) fs s

-- Type{Kind: k, Nullable: n}
abbrev pub simple : Kind → Bool → VortexType
simple k n =
    vtype
      (record {
        kind = k;
        nullable = n;
        extension_id = "";
        metadata = List.[];
        precision = ℤ.pos 0;
        scale = ℤ.pos 0;
        list_size = ℤ.pos 0;
      })
      no_fields no_storage

abbrev pub count_fields : Fields → ℕ
count_fields no_fields = 0
count_fields (field n t fs) = suc (count_fields fs)

-- t.Fields[i].Type
abbrev pub field_type : Fields → ℕ → Option VortexType
field_type no_fields i = none
field_type (field n t fs) zero = some t
field_type (field n t fs) (suc i) = field_type fs i

-- append(fs, Field{name, t})
abbrev pub add_field : Fields → String → VortexType → Fields
add_field no_fields name t = field name t no_fields
add_field (field n u fs) name t = field n u (add_field fs name t)

-- Type.width, in bytes; 0 for what is not a fixed-width primitive
abbrev pub width : Kind → ℕ
width bool = 1
width u8 = 1
width i8 = 1
width u16 = 2
width i16 = 2
width f16 = 2
width u32 = 4
width i32 = 4
width f32 = 4
width u64 = 8
width i64 = 8
width f64 = 8
width k = 0

-- Type.signed, and the test of scan.go and prune.go for a prunable column
abbrev pub is_signed : Kind → Bool
is_signed i8 = true
is_signed i16 = true
is_signed i32 = true
is_signed i64 = true
is_signed k = false

-- Type.integer: the kind's first letter is i or u, and it has a width
abbrev pub is_integer : Kind → Bool
is_integer u8 = true
is_integer u16 = true
is_integer u32 = true
is_integer u64 = true
is_integer k = is_signed k
