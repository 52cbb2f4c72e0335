-- ===== src/File/Arrays/Flat.antt =====
-- `File.decodeFlat` of array.go.
pub mod Trailer
use vortex_go.Base.{
  ℕ, zero, suc, ◌+◌, ◌-◌, ◌^◌, String, Bool, true, false, not, ◌||◌, Option, none, some, List, [],
  ◌∷◌, take, drop, length, ltb, leb, ◌==◌, if◌then◌else◌,
}
use vortex_go.Base.Int.{pos}
use vortex_go.Outcome.{Error, Result, ok, err, invalid, panic, refuse, Action}
use vortex_go.Outcome.Act.{pure, raise, lift, ◌>>=◌, ◌>>◌}
use vortex_go.Schema.{VortexType}
use vortex_go.Layout.{Layout, Layouts, layout, nil, cons, Header, LayoutId}
use vortex_go.Wire.{ProtoWire, ProtoValue, WireType, ProtoFields, values_of, proto_fields}
use vortex_go.Encoding.Values.{Node, index}
use vortex_go.Encoding.Word.{read_little}
use vortex_go.File.Tables.{Tables}
use vortex_go.File.Limits.{max_segment, recover_parse}
use vortex_go.File.Read.{ReadAnswer, read}
use vortex_go.File.Registry.{Registry, Segment}
use vortex_go.File.Arrays.{parse_array}

-- x[len(x)-1].bytes: a value that is no bytes has none
last_content : List ProtoValue → Option (List ℕ)
last_content [] = none
last_content (v ∷ []) = elim v.kind [
  | WireType.bytes ↦ some v.content
  | WireType.varint ↦ none
  | WireType.fixed32 ↦ none
  | WireType.fixed64 ↦ none
  | WireType.other ↦ none
]
last_content (v ∷ u ∷ vs) = last_content (u ∷ vs)

-- The length of the tree that ends a segment, by its trailer.
unfoldable pub trailer : List ℕ → ℕ
unfolding read_little
trailer b = read_little (drop (length b - 4) b) 4

-- The tree at the end of a segment, and the data before it.
unfoldable pub split_trailer : List ℕ → Result (List ℕ × List ℕ)
unfolding trailer
split_trailer b =
    if ltb (length b) 4
    then err (invalid "array trailer")
    else if ltb (length b - 4) (trailer b)
    then err (invalid "array metadata length")
    else ok
        (take (trailer b) (drop (length b - 4 - trailer b) b), take (length b - 4 - trailer b) b)

inlined : Option (List ℕ) → List ℕ → Result (List ℕ × List ℕ)
unfolding split_trailer
inlined none b = split_trailer b
inlined (some tree) b = ok (tree, b)

flat_shape : LayoutId → Layouts → List ℕ → Bool
flat_shape LayoutId.flat nil (s ∷ []) = true
flat_shape i cs ss = false

module _ (w : ProtoWire) where
  inline_tree : List ℕ → Result (Option (List ℕ))
  unfolding proto_fields values_of last_content
  inline_tree [] = ok none
  inline_tree (b ∷ bs) = elim (proto_fields w (b ∷ bs)) [
    | err e ↦ err e
    | ok fields ↦ ok (last_content (values_of fields 1))
  ]

  -- The array tree of a segment and the data of its buffers.
  tree_and_data : List ℕ → List ℕ → Result (List ℕ × List ℕ)
  unfolding inline_tree inlined
  tree_and_data metadata b = elim (inline_tree metadata) [
    | err e ↦ err e
    | ok tree ↦ inlined tree b
  ]

  module _ {World Array : Type 0} (tables : Tables) (ctx_err : World → Option Error × World)
      (read_at : (offset want : ℕ) → World → ReadAnswer × World)
      (decode : Node → VortexType → ℕ → Action World Array) where
    recovering : Result Array × World → Result Array × World
    unfolding recover_parse
    recovering (r, world) = (recover_parse r, world)

    flat_body : (size : ℕ) → Registry → Layout → VortexType → Action World Array
    unfolding flat_shape read tree_and_data parse_array
    flat_body size r (layout i h cs) t = do
      lift (refuse (not (flat_shape i cs h.segments)) (invalid "flat layout shape"))
      lift (refuse (leb (2 ^ 63) h.rows) (invalid "array length"))
      k ← lift (index h.segments 0)
      s ← lift (index r.segments k)
      b ← read ctx_err read_at size (pos s.offset) s.length max_segment
      (tree, rest) ← lift (tree_and_data h.metadata b)
      node ← lift (parse_array tables r.arrays tree rest)
      decode node t h.rows

    -- f.decodeFlat(ctx, l, t) of a file of `size` bytes with the registry `r`
    unfoldable pub decode_flat : (size : ℕ) → Registry → Layout → VortexType → Action World Array
    unfolding flat_body recovering
    decode_flat size r l t world = recovering (flat_body size r l t world)
