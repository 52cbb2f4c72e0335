-- ===== src/Scan/Auxiliary.antt =====
-- `decodeLayout` and `takeDictionary` of scan.go: dictionary values and zone-map tables.
use vortex_go.Base.{
  ℕ, ◌+◌, ◌-◌, ◌*◌, ◌^◌, String, Bool, not, ◌&&◌, Option, List, [], ◌∷◌, ◌++◌, ltb, ◌==◌,
  if◌then◌else◌,
}
use vortex_go.Outcome.{Error, Result, ok, err, invalid, unsupported, failed, refuse, Action}
use vortex_go.Outcome.Act.{raise, lift, check_context, ◌>>=◌, ◌>>◌}
use vortex_go.Schema.{
  VortexType, Kind, Fields, no_fields, field, is_kind, kind_of, is_nullable, fields_of,
}
use vortex_go.Layout.{Layout, Layouts, layout, nil, cons, rows}
use vortex_go.Layout.LayoutId.{struct, chunked, flat, zoned, stats, dict, other}
use vortex_go.ArrayLib.{ArrayLib}
use vortex_go.Wire.{ProtoWire}
use vortex_go.Scan.Plan.{dictionary_code_type, struct_mismatch}

module _ (lib : ArrayLib) where
  open lib use {Array, null_n}

  taken : VortexType → Result Array → Result Array
  taken t (err e) = err (failed "dictionary indices")
  taken t (ok a) =
      if not (is_nullable t) && not (is_kind (kind_of t) Kind.null) && not (null_n a == 0)
      then err (invalid "null in nonnullable dictionary")
      else ok a

  -- takeDictionary
  unfoldable pub take_dictionary : Array → Array → VortexType → Result Array
  unfolding taken
  take_dictionary values codes t = taken t (lib.take values codes)

  module _ {World : Type 0} (w : ProtoWire) (ctx_err : World → Option Error × World)
      (decode_flat : Layout → VortexType → Action World Array) where
    -- What every call of decodeLayout checks first.
    entry : ℕ → Action World (Unit {0})
    unfolding check_context
    entry n = do
      check_context ctx_err
      lift (refuse (ltb (32 * 2 ^ 20) n) (unsupported "auxiliary array row limit"))

    join_chunks : VortexType → (total sum : ℕ) → List Array → Action World Array
    join_chunks t total sum chunks =
        if not (sum == total)
        then raise (invalid "auxiliary chunk row sum")
        else (elim chunks [ [] ↦ lift (lib.empty t) | c ∷ cs ↦ lift (lib.concatenate (c ∷ cs)) ])

    mutual
      unfolding entry join_chunks take_dictionary

      pub decode_layout : Layout → VortexType → Action World Array
      decode_layout (layout flat h cs) t = do entry h.rows; decode_flat (layout flat h cs) t
      decode_layout (layout zoned h (cons c (cons s nil))) t = do
        entry h.rows
        lift (refuse (not (rows c == h.rows)) (invalid "zoned layout shape"))
        decode_layout c t
      decode_layout (layout stats h (cons c (cons s nil))) t = do
        entry h.rows
        lift (refuse (not (rows c == h.rows)) (invalid "zoned layout shape"))
        decode_layout c t
      decode_layout (layout struct h cs) t = do
        entry h.rows
        lift (refuse (struct_mismatch t cs) (invalid "auxiliary struct shape"))
        decode_columns cs (fields_of t) h.rows []
      decode_layout (layout chunked h cs) t = do entry h.rows; decode_chunks cs t h.rows 0 []
      decode_layout (layout dict h (cons d (cons c nil))) t = do
        entry h.rows
        lift (refuse (not (rows c == h.rows)) (invalid "auxiliary dictionary shape"))
        codes_type ← lift (dictionary_code_type w h t)
        values ← decode_layout d t
        codes ← decode_layout c codes_type
        lift (take_dictionary values codes t)
      decode_layout (layout zoned h cs) t = do entry h.rows; raise (invalid "zoned layout shape")
      decode_layout (layout stats h cs) t = do entry h.rows; raise (invalid "zoned layout shape")
      decode_layout (layout dict h cs) t = do
        entry h.rows
        raise (invalid "auxiliary dictionary shape")
      decode_layout (layout (other id) h cs) t = do
        entry h.rows
        raise (unsupported "auxiliary layout")

      -- The loop over the fields of a struct; the counts agree.
      decode_columns : Layouts → Fields → ℕ → List (Array × (String × Bool)) → Action World Array
      decode_columns (cons c cs) (field name ft fs) total cols = do
        lift (refuse (not (rows c == total)) (invalid "auxiliary struct rows"))
        a ← decode_layout c ft
        decode_columns cs fs total (cols ++ ((a, (name, is_nullable ft)) ∷ []))
      decode_columns (cons c cs) no_fields total cols = lift (lib.struct_of cols)
      decode_columns nil fs total cols = lift (lib.struct_of cols)

      -- The loop over the chunks, after `sum` rows.
      decode_chunks : Layouts → VortexType → (total sum : ℕ) → List Array → Action World Array
      decode_chunks (cons c cs) t total sum chunks = do
        lift (refuse (ltb (total - sum) (rows c)) (invalid "auxiliary chunk rows"))
        a ← decode_layout c t
        decode_chunks cs t total (sum + rows c) (chunks ++ (a ∷ []))
      decode_chunks nil t total sum chunks = join_chunks t total sum chunks
