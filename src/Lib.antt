-- ===== src/Lib.antt =====
-- Verification of vortex-go, a reader of Vortex files that streams Arrow record batches.
--
-- The program. `Open` (file.go) reads a file's footer: its type (dtype.go), the registry of its
-- encodings, layouts and segments, and a tree of layouts. `NewRecordReader` (scan.go) turns the layout
-- of each projected column into a plan: pieces, which are flat arrays with the rows that they hold, and
-- zones, which are ranges of rows with optional statistics. `Next` then walks over the rows: the zones
-- of each predicate (prune.go) bound the batch and may let it skip rows, a cursor for each column finds
-- the piece that holds the position, and the piece is read (array.go), decoded (internal/encoding),
-- cached and sliced.
--
-- The files.
--   Base, Outcome      shared names and lemmas; errors, results, methods that change a state on every
--                      path; Outcome/Ensures are the rules for their postconditions
--   Schema             Type and Kind; Schema/Arrow is ArrowType (internal/encoding/types.go)
--   Layout             the layout tree (file.go); `address` stands for the pointer that caches compare
--   ArrayLib           what the code uses of Arrow arrays, a parameter
--   Wire               protoFields (array.go); the primitives of protowire are a parameter
--   File               file.go, dtype.go and array.go: Read (File.read), Tables (the FlatBuffers
--                      accessors, a parameter), Limits (checkRoot, checkCount, nodeBudget, copyText,
--                      recoverParse), Registry (parseRegistry), LayoutTree (parseLayout), DType
--                      (parseType), Arrays (parseArray, parseNode, decodeFlat), Open (Open); the proofs
--                      are Read/Exact, Returns and Refused, Registry/Segments, LayoutTree/Parsed and Shape,
--                      Arrays/Nodes/Shape, Arrays/Flat/Trailer, Open/Schema/Distinct, Open/Opened and
--                      Open/Source
--   Zone, Zone/Schema, Zone/Evaluate
--                      newZoneRef, zoneSchema, evaluate and signedValue (prune.go); Sound, Steps,
--                      Honest, Settled and Settles of Zone/Evaluate are the proofs
--   Scan/Plan          buildFieldPlan, buildScalarPlan, dictionaryCodeType (scan.go); proofs in Tiling
--                      and Columns
--   Scan/Start         NewRecordReader; Plans is getPlan, Valid the proof
--   Scan/Cursor        columnCursor.at, with its proof
--   Scan/Auxiliary     decodeLayout and takeDictionary
--   Scan/Reader        RecordReader.Next and Release; Read is columnCursor.read; Visit, Predicates,
--                      Columns, Rounds, Next, Kept, Calls, Whole and Ends are the proofs
--   Encoding           the array decoder (internal/encoding): Word, Proto (proto.go), Values, Row, Scalar
--                      and Decode (decode.go), Numeric (numeric.go, and delta of temporal_delta.go),
--                      Temporal (datetimeParts), Binary (binary.go)
--   Pco                internal/pco/decode.go: Words (mask, orderedBits and the conversions of floats),
--                      Reader (the bit reader), Table and Latent (parseLatent), Mode and Chunk
--                      (parseChunk), Page (readLatents and the batches of page), Restore, Output (the end of
--                      page) and Decode; the proofs are Reader/Bits, Stream and Total, Words/Bounds,
--                      Table/Lengths, Below and Slots, Latent/Closed, Page/Nodes, Filled and Batches,
--                      Chunk/Shapes and Parsed, Restore/Lengths, Consecutive, Lookback and
--                      Convolution, Output/Columns and Values, Decode/Pages and Packed, and
--                      Encoding/Binary/PcoChunks/Totals, on its caller
--   Tests              runs at small inputs, and each theorem at an input where its hypotheses hold
--
-- How the code is modelled. Numbers are natural: row counts, positions and lengths, which the code
-- holds in int64 and never lets be negative. A uint64 is a number below 2^64 with its wrap-around
-- written out. A Go error is a value of `Error`, which keeps what errors.Is asks for, and a panic (an
-- index out of range, which Next, Open and decodeFlat recover) is `panic`. The context and everything
-- else outside of the code's state is a `World` that the calls pass along. An array that Arrow counts
-- references to is a value; the calls of Retain and Release on arrays are left out, and where the code
-- sets a field to nil the model does. A node of a FlatBuffers table is read by one accessor, which may
-- panic, for all of its fields.
--
-- Loops are structural, but for these. The loop of Next has as fuel the rows that are left: every
-- round that goes on moves the position forward. The loop of `read` has as fuel the number of chunks of
-- 64 KiB in the range, and that they would not be enough is a panic, so that no result hides it. The parsers of trees and `decode` have as fuel the levels that the code's own
-- limit on the depth leaves, and fail where it does. The protobuf parsers have as fuel the field limit
-- that the code checks itself. The walk over packed integers has as fuel the number of bytes, of which
-- every integer takes one at least. The bit reader of pco has as fuel the bits to read, of which a round
-- takes one at least.
--
-- The hypotheses. A theorem on the scan speaks of the values of the columns as a function of the row,
-- none for a null. A zone's statistics are honest when the table that is or can be loaded for the zone
-- bounds those values and counts their nulls, zone by zone: the code has to trust the file for that.
-- A reader is valid when its batch size is positive, the zones of its plans are honest and lie within the
-- rows, and each cursor stands where the pieces from there on tile the rest of the file. A source keeps the promise of
-- io.ReaderAt when the bytes that it counts are those of the file; one that never fails also reads all that
-- it is asked for within its size, with no error or with io.EOF.
--
-- Not modelled: Arrow's output (arrow.go), so that decodeFlat and the scan take the decoder of a flat
-- array as a parameter. Parameters too are the third-party decompressor of zstd and the floating-point
-- arithmetic of alp and of internal/pco. internal/wire is generated.
pub mod Base
pub mod Outcome
pub mod Schema
pub mod Layout
pub mod ArrayLib
pub mod Wire
pub mod Zone
pub mod Scan
pub mod Encoding
pub mod Pco
pub mod File
pub mod Tests
