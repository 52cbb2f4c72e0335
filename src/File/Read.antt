-- ===== src/File/Read.antt =====
-- `File.read` of file.go: a range of the file, in reads of at most 64 KiB.
pub mod Exact
pub mod Returns
pub mod Refused
use vortex_go.Base.{
  ℕ, zero, suc, ◌+◌, ◌-◌, ◌*◌, ◌/◌, ◌^◌, Bool, true, false, ◌||◌, Option, none, some, List, [], ◌∷◌,
  ◌++◌, ltb, ◌==◌, min, if◌then◌else◌,
}
use vortex_go.Base.Int.{ℤ, pos, negsuc}
use vortex_go.Outcome.{Error, Result, ok, err, panic, invalid, unsupported, failed, Action, refuse}
use vortex_go.Outcome.Act.{pure, raise, lift, check_context, ◌>>=◌, ◌>>◌}

-- What io.ReaderAt answers: the byte count, the buffer's bytes, and the error with whether it is
-- io.EOF.
pub record ReadAnswer : Type 0 where
  pub count : ℤ
  pub content : ℕ → ℕ
  pub failure : Option (Bool × Error)

abbrev pub max_read : ℕ
max_read = 64 * 2 ^ 10

-- The bytes number i, i + 1, … of a buffer.
unfoldable pub bytes_from : (ℕ → ℕ) → (i n : ℕ) → List ℕ
bytes_from byte i zero = []
bytes_from byte i (suc n) = byte i ∷ bytes_from byte (i + 1) n

-- n != end-done: the source's error, or io.ErrUnexpectedEOF
short_read : Option (Bool × Error) → Result (List ℕ)
short_read none = err (failed "unexpected EOF")
short_read (some (eof, e)) = err e

-- The whole chunk was read: only io.EOF may come with it.
whole_read : Option (Bool × Error) → List ℕ → Result (List ℕ)
whole_read none b = ok b
whole_read (some (eof, e)) b = if eof then ok b else err e

-- The tests of one answer for `want` bytes.
accept_count : ℤ → (want : ℕ) → ReadAnswer → Result (List ℕ)
unfolding short_read whole_read bytes_from
accept_count (negsuc k) want a = err (invalid "invalid ReaderAt byte count")
accept_count (pos k) want a =
    if ltb want k
    then err (invalid "invalid ReaderAt byte count")
    else if k == want
    then whole_read a.failure (bytes_from a.content 0 want)
    else short_read a.failure

pub accept_answer : (want : ℕ) → ReadAnswer → Result (List ℕ)
unfolding accept_count
accept_answer want a = accept_count a.count want a

-- How many times the loop runs.
abbrev pub chunk_count : ℕ → ℕ
chunk_count length = (length + (max_read - 1)) / max_read

module _ {World : Type 0} (ctx_err : World → Option Error × World)
    (read_at : (offset want : ℕ) → World → ReadAnswer × World) where
  pub read_chunk : (offset want : ℕ) → Action World (List ℕ)
  unfolding accept_answer
  read_chunk offset want w = let (a, w') = read_at offset want w in (accept_answer want a, w')

  -- The loop, with `done` bytes behind it, of at most `n` more rounds; where it needs one more, it
  -- panics.
  pub read_chunks : (n done offset length : ℕ) → Action World (List ℕ)
  unfolding read_chunk check_context
  read_chunks zero done offset length = do lift (refuse (ltb done length) panic); pure []
  read_chunks (suc n) done offset length =
      if ltb done length
      then (do
        check_context ctx_err
        b ← read_chunk (offset + done) (min (done + max_read) length - done)
        rest ← read_chunks n (min (done + max_read) length) offset length
        pure (b ++ rest))
      else pure []

  read_from : (size offset length limit : ℕ) → Action World (List ℕ)
  unfolding read_chunks check_context
  read_from size offset length limit = do
    lift (refuse (ltb size offset || ltb (size - offset) length) (invalid "read range outside"))
    lift (refuse (ltb limit length) (unsupported "segment length exceeds limit"))
    b ← read_chunks (chunk_count length) 0 offset length
    check_context ctx_err
    pure b

  -- f.read(ctx, offset, length, limit) of a file of `size` bytes; no caller's length is negative
  unfoldable pub read : (size : ℕ) → (offset : ℤ) → (length limit : ℕ) → Action World (List ℕ)
  unfolding read_from check_context
  read size (negsuc k) length limit = do check_context ctx_err; raise (invalid "read range outside")
  read size (pos offset) length limit = do check_context ctx_err; read_from size offset length limit
