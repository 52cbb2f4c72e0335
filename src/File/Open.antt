-- ===== src/File/Open.antt =====
-- `Open` of file.go.
pub mod Schema
pub mod Parts
pub mod Opened
pub mod Source
use vortex_go.Base.{
  ℕ, zero, suc, ◌+◌, ◌-◌, ◌*◌, String, Bool, true, false, not, ◌&&◌, ◌||◌, Option, none, some, List,
  [], ◌∷◌, drop, length, ltb, ◌==◌, if◌then◌else◌,
}
use vortex_go.Base.Int.{ℤ, pos, sub_ℕ}
use vortex_go.Outcome.{Error, Result, ok, err, invalid, unsupported, refuse, Action}
use vortex_go.Outcome.Act.{pure, raise, lift, ◌>>=◌, ◌>>◌}
use vortex_go.Schema.{VortexType, Kind, kind_of, is_nullable, is_kind, fields_of}
use vortex_go.Schema.Arrow.{ArrowTypes, ArrowField}
use vortex_go.Layout.{Layout, rows}
use vortex_go.Encoding.Word.{read_little}
use vortex_go.File.Tables.{Tables, SegmentSpec}
use vortex_go.File.Limits.{check_root, max_metadata, max_depth, max_nodes, recover_parse}
use vortex_go.File.Read.{ReadAnswer, read}
use vortex_go.File.Registry.{Registry, parse_footer}
use vortex_go.File.LayoutTree.{parse_layout}
use vortex_go.File.DType.{parse_type}
use vortex_go.File.Open.Parts.{File, is_magic, parse_eof, check_postscript_segment, parse_file}

-- size - 8 - int64(psLen)
ps_start : (size ps_len : ℕ) → ℤ
ps_start size ps_len = sub_ℕ (size - 8) ps_len

module _ (tables : Tables) (arrow : ArrowTypes) where
  module _ {World : Type 0} (ctx_err : World → Option Error × World)
      (read_at : (offset want : ℕ) → World → ReadAnswer × World) where
    -- get(s)
    get_segment : (size start : ℕ) → Option SegmentSpec → Action World (List ℕ)
    unfolding read check_postscript_segment
    get_segment size start spec = do
      s ← lift (check_postscript_segment start spec)
      read ctx_err read_at size (pos s.offset) s.length max_metadata

    open_body : (size : ℕ) → Action World (File arrow.DataType)
    unfolding read is_magic parse_eof ps_start check_root get_segment parse_file
    open_body size = do
      lift (refuse (ltb size 12) (invalid "missing header or footer"))
      header ← read ctx_err read_at size (pos 0) 4 max_metadata
      lift (refuse (not (is_magic header)) (invalid "header magic"))
      eof ← read ctx_err read_at size (pos (size - 8)) 8 max_metadata
      ps_len ← lift (parse_eof eof)
      ps_bytes ← read ctx_err read_at size (ps_start size ps_len) ps_len max_metadata
      lift (check_root ps_bytes)
      ps ← lift (tables.postscript ps_bytes)
      dtype_bytes ← get_segment size (size - 8 - ps_len) ps.dtype
      footer_bytes ← get_segment size (size - 8 - ps_len) ps.footer
      layout_bytes ← get_segment size (size - 8 - ps_len) ps.layout
      lift (parse_file tables arrow size dtype_bytes footer_bytes layout_bytes)

    recovering : {A : Type 0} → Result A × World → Result A × World
    unfolding recover_parse
    recovering (r, w) = (recover_parse r, w)

    -- Open(ctx, source, size) of a source that is not nil
    unfoldable pub open_file : (size : ℕ) → Action World (File arrow.DataType)
    unfolding open_body recovering
    open_file size w = recovering (open_body size w)
