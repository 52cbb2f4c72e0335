-- ===== src/File/Registry.antt =====
-- `File.parseRegistry` of file.go: the names of the encodings and of the layouts, and the segments.
pub mod Segments
use vortex_go.Base.{
  ℕ, zero, suc, ◌+◌, ◌-◌, String, Bool, true, false, ◌||◌, List, [], ◌∷◌, ltb, if◌then◌else◌,
}
use vortex_go.Outcome.{Result, ok, err, invalid, unsupported, refuse, ◌>>=◌, ◌>>◌}
use vortex_go.File.Tables.{Text, SegmentSpec, Footer, Tables}
use vortex_go.File.Limits.{check_root, check_count, max_metadata}

-- `segment`
pub record Segment : Type 0 where
  pub offset : ℕ
  pub length : ℕ

-- The parts of `File` that parseRegistry fills.
pub record Registry : Type 0 where
  pub arrays : List String
  pub layouts : List String
  pub segments : List Segment

-- A loop over names: `n` are left, from i on, after `text` bytes of names.
pub parse_names : (n i text : ℕ) → (ℕ → Result Text) → Result (ℕ × List String)
parse_names zero i text name = ok (text, [])
parse_names (suc n) i text name = do
  t ← name i
  refuse (ltb max_metadata (text + t.size)) (invalid "registry text budget")
  (total, rest) ← parse_names n (i + 1) (text + t.size) name
  ok (total, t.text ∷ rest)

-- The tests of one segment in a file of `size` bytes.
unfoldable pub parse_segment : (size : ℕ) → SegmentSpec → Result Segment
parse_segment size v = do
  refuse (ltb size v.offset || ltb (size - v.offset) v.length) (invalid "segment range")
  refuse (ltb 30 v.alignment) (invalid "segment alignment")
  refuse v.has_transforms (unsupported "segment compression/encryption")
  ok (record { offset = v.offset; length = v.length })

unfoldable pub parse_segments : (n i size : ℕ) → (ℕ → Result SegmentSpec) → Result (List Segment)
unfolding parse_segment
parse_segments zero i size spec = ok []
parse_segments (suc n) i size spec = do
  v ← spec i
  s ← parse_segment size v
  rest ← parse_segments n (i + 1) size spec
  ok (s ∷ rest)

-- f.parseRegistry(b) of a file of `size` bytes; `bytes` is len(b)
unfoldable pub parse_footer : (size bytes : ℕ) → Footer → Result Registry
unfolding parse_names parse_segments check_count
parse_footer size bytes r = do
  check_count r.arrays bytes 4
  (text, arrays) ← parse_names r.arrays 0 0 r.array_id
  check_count r.layouts bytes 4
  (total, layouts) ← parse_names r.layouts 0 text r.layout_id
  check_count r.segments bytes 16
  segments ← parse_segments r.segments 0 size r.segment
  ok (record { arrays = arrays; layouts = layouts; segments = segments })
