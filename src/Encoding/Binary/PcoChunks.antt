-- ===== src/Encoding/Binary/PcoChunks.antt =====
-- `decoder.pco` of internal/encoding/binary.go: its children, its budget, and the call of internal/pco.
pub mod Totals
use vortex_go.Base.{ℕ, ◌*◌, not, ◌||◌, take, drop, length, ltb, ◌==◌}
use vortex_go.Outcome.{failed, refuse}
use vortex_go.Outcome.Act.{pure, lift, ◌>>=◌, ◌>>◌}
use vortex_go.Schema.{VortexType, Kind, is_kind, kind_of, width}
use vortex_go.Encoding.Proto.{Proto, bytes}
use vortex_go.Encoding.Values.{Values, Node, Decode, buffers, with_bits, with_valid, empty, reserve}
use vortex_go.Encoding.Numeric.Primitive.{ChildDecoder, validity}
use vortex_go.Pco.Words.{Floats}
use vortex_go.Pco.Decode as Pco
use vortex_go.Encoding.Binary.Pco.{chunk_counts, valid_count, spread_words}

-- d.pco(n, t, length, m)
unfoldable pub pco : Floats → ChildDecoder → Node → VortexType → ℕ → Proto → Decode Values
unfolding empty validity chunk_counts valid_count reserve bytes spread_words
pco floats decode_child n t rows m = do
  lift (
      refuse (width (kind_of t) == 0 || is_kind (kind_of t) Kind.bool)
        (failed "PCO requires primitive type"))
  out ← empty t rows
  valid ← validity decode_child n 0 rows
  (counts, total) ← lift (chunk_counts rows 0 m)
  lift (refuse (ltb (length (buffers n)) (length counts)) (failed "PCO missing chunk metadata"))
  present ← lift (valid_count rows 0 valid)
  lift (refuse (not (total == present)) (failed "PCO count differs from validity"))
  reserve (total * width (kind_of t))
  raw ← lift (
      Pco.decode floats (bytes m 1) (take (length counts) (buffers n))
        (drop (length counts) (buffers n)) counts (kind_of t))
  lift (
      refuse (not (length raw == present * width (kind_of t)))
        (failed "PCO output length mismatch"))
  bits ← lift (spread_words rows 0 (width (kind_of t)) valid raw)
  pure (with_valid valid (with_bits bits out))
