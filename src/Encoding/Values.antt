-- ===== src/Encoding/Values.antt =====
-- The decoder's state and its canonical values: `values`, `decoder` and their helpers of
-- internal/encoding/decode.go. A missing slice is `none`, and an index out of range is a panic.
use vortex_go.Base.{
  ℕ, zero, suc, ◌-◌, ◌*◌, ◌/◌, ◌^◌, Bool, true, false, not, ◌||◌, Option, none, some, List, [], ◌∷◌,
  get_elem?, replicate, ltb, ◌==◌, if◌then◌else◌,
}
use vortex_go.Base.Int.{pos, ltb_ℤ}
use vortex_go.Outcome.{Result, ok, err, failed, panic, refuse, Action}
use vortex_go.Outcome.Act.{pure, raise, ◌>>=◌, ◌>>◌}
use vortex_go.Schema.{
  VortexType, Kind, Fields, no_fields, field, Storage, stored, no_storage, vtype, info, kind_of,
  width, is_kind,
}

-- The encodings that `decode` dispatches on; every other identifier is `other`.
pub data Encoding : Type 0 where
  null primitive bool bytebool constant struct varbin varbinview dict masked extension decimal :
      Encoding
  decimal_byte_parts bitpacked frame_of_reference zigzag sequence runend rle sparse alp alprd :
      Encoding
  fsst onpair zstd datetimeparts delta pco other : Encoding

-- `Node`; the parser never makes a nil child.
mutual
  pub data Node : Type 0 where
    node : Encoding → (metadata : List ℕ) → (buffers : List (List ℕ)) → Nodes → Node

  pub data Nodes : Type 0 where
    nil : Nodes
    cons : Node → Nodes → Nodes

abbrev pub children : Node → Nodes
children (node e m b cs) = cs

abbrev pub buffers : Node → List (List ℕ)
buffers (node e m b cs) = b

abbrev pub count_nodes : Nodes → ℕ
count_nodes nil = 0
count_nodes (cons c cs) = suc (count_nodes cs)

abbrev pub node_at : Nodes → ℕ → Option Node
node_at nil i = none
node_at (cons c cs) zero = some c
node_at (cons c cs) (suc i) = node_at cs i

-- The slices of `values`.
pub record Slices : Type 0 where
  pub bits : Option (List ℕ)
  pub bytes : Option (List (List ℕ))
  pub wide : Option (List ℕ)
  pub valid : Option (List Bool)

-- `values`, with its fields.
mutual
  pub data Values : Type 0 where
    values : VortexType → (n : ℕ) → Slices → ValuesList → Values

  pub data ValuesList : Type 0 where
    no_values : ValuesList
    more_values : Values → ValuesList → ValuesList

abbrev pub slices : Values → Slices
slices (values t n s fs) = s

abbrev pub valid_of : Values → Option (List Bool)
valid_of v = (slices v).valid

abbrev pub with_type : VortexType → Values → Values
with_type t (values u n s fs) = values t n s fs

abbrev pub with_valid : Option (List Bool) → Values → Values
with_valid m (values t n s fs) = values t n (record s { valid = m }) fs

abbrev pub with_bits : List ℕ → Values → Values
with_bits b (values t n s fs) = values t n (record s { bits = some b }) fs

abbrev pub no_slices : Slices
no_slices = record { bits = none; bytes = none; wide = none; valid = none }

-- v.bits, where ranging over nil is ranging over nothing
abbrev pub bits_of : Values → List ℕ
bits_of v = elim (slices v).bits [ none ↦ [] | some b ↦ b ]

-- `xs[i]`
abbrev pub index {ℓ} : {A : Type ℓ} → List A → ℕ → Result A
index xs i = elim (get_elem? xs i) [ none ↦ err panic | some x ↦ ok x ]

-- `decoder`: the bytes that may still be allocated, and how often the context was asked. The depth
-- is an argument of `decode`.
pub record Decoder : Type 0 where
  pub remaining : ℕ
  pub checks : ℕ

abbrev pub Decode : Type 0 → Type 0
Decode A = Action Decoder A

abbrev pub max_decode_bytes : ℕ
max_decode_bytes = 512 * 2 ^ 20

abbrev pub max_rows : ℕ
max_rows = max_decode_bytes / 16

-- d.reserve(n); the callers' n is never negative
unfoldable pub reserve : ℕ → Decode (Unit {0})
reserve n d =
    if ltb d.remaining n
    then (err (failed "array exceeds decoder allocation limit"), d)
    else (ok tt, record d { remaining = d.remaining - n })

-- boundedInt
unfoldable pub bounded_int : ℕ → Result ℕ
bounded_int x = if ltb max_rows x then err (failed "array length exceeds limit") else ok x

-- countChildren
unfoldable pub count_children : Node → ℕ → Result (Unit {0})
count_children n c = refuse (not (count_nodes (children n) == c)) (failed "unexpected children")

-- oneBuffer
unfoldable pub one_buffer : Node → Result (List ℕ)
one_buffer n = elim (buffers n) [
  | [] ↦ err (failed "expected one buffer")
  | b ∷ bs ↦ elim bs [ [] ↦ ok b | c ∷ cs ↦ err (failed "expected one buffer") ]
]

-- v.isValid(i)
unfoldable pub is_valid : Option (List Bool) → ℕ → Result Bool
is_valid none i = ok true
is_valid (some m) i = index m i

-- d.mask(v)
unfoldable pub mask : Values → Decode Values
unfolding reserve
mask (values t n s fs) = elim s.valid [
  | some m ↦ pure (values t n s fs)
  | none ↦ (do reserve n; pure (with_valid (some (replicate n true)) (values t n s fs)))
]

-- The width of a decimal value
unfoldable pub decimal_width : VortexType → ℕ
decimal_width t = if ltb_ℤ (pos 38) (info t).precision then 32 else 16

-- A canonical kind with no fields and no storage, and what a row of it costs.
abbrev flat_values : VortexType → ℕ → Slices → Values
flat_values t n s = values t n s no_values

empty_flat : VortexType → ℕ → Decode Values
unfolding reserve decimal_width
empty_flat t n =
    if is_kind (kind_of t) Kind.utf8 || is_kind (kind_of t) Kind.binary
    then (do
      reserve (n * 24)
      pure (flat_values t n (record no_slices { bytes = some (replicate n []) })))
    else if is_kind (kind_of t) Kind.decimal
    then (do
      reserve (n * decimal_width t)
      pure (flat_values t n (record no_slices { wide = some (replicate (n * decimal_width t) 0) })))
    else if ltb 0 (width (kind_of t))
    then (do
      reserve (n * 8)
      pure (flat_values t n (record no_slices { bits = some (replicate n 0) })))
    else if is_kind (kind_of t) Kind.null
    then (do
      reserve n
      pure (flat_values t n (record no_slices { valid = some (replicate n false) })))
    else raise (failed "unsupported canonical type")

-- d.empty(t, n): values of the type, all zero
unfoldable mutual
  unfolding empty_flat

  pub empty : VortexType → ℕ → Decode Values
  empty (vtype i fs s) n =
      let flat = empty_flat (vtype i fs s) n in
      let fields = (do xs ← empty_fields fs n; pure (values (vtype i fs s) n no_slices xs)) in
      let stored = (do v ← empty_storage s n; pure (with_type (vtype i fs s) v)) in
      if ltb max_rows n
      then raise (failed "invalid array length")
      else if is_kind i.kind Kind.extension
      then stored
      else if is_kind i.kind Kind.struct
      then fields
      else flat

  pub empty_fields : Fields → ℕ → Decode ValuesList
  empty_fields no_fields n = pure no_values
  empty_fields (field name t fs) n = do
    v ← empty t n
    vs ← empty_fields fs n
    pure (more_values v vs)

  pub empty_storage : Storage → ℕ → Decode Values
  empty_storage no_storage n = raise (failed "extension missing storage")
  empty_storage (stored t) n = empty t n

-- d.copyValidityShape(dst, src): a row mask wherever the source has one
unfoldable mutual
  unfolding mask

  pub copy_validity_shape : Values → Values → Decode Values
  copy_validity_shape (values t n s fs) (values u k r gs) = do
    v ← elim r.valid [ none ↦ pure (values t n s fs) | some m ↦ mask (values t n s fs) ]
    hs ← copy_validity_shapes fs gs
    pure (values t n (slices v) hs)

  pub copy_validity_shapes : ValuesList → ValuesList → Decode ValuesList
  copy_validity_shapes no_values gs = pure no_values
  copy_validity_shapes (more_values f fs) no_values = raise panic
  copy_validity_shapes (more_values f fs) (more_values g gs) = do
    h ← copy_validity_shape f g
    hs ← copy_validity_shapes fs gs
    pure (more_values h hs)
