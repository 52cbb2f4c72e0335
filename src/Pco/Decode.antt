-- ===== src/Pco/Decode.antt =====
-- `Decode` and `chunk.page` of internal/pco/decode.go.
pub mod Pages
pub mod Packed
use vortex_go.Base.{
  ℕ, zero, suc, ◌+◌, ◌-◌, ◌*◌, ◌/◌, ◌%◌, ◌^◌, Bool, true, false, not, ◌&&◌, ◌||◌, List, [], ◌∷◌,
  ◌++◌, length, ltb, leb, ◌==◌, if◌then◌else◌,
}
use vortex_go.Outcome.{Result, ok, err, failed, panic, refuse, ◌>>=◌, ◌>>◌}
use vortex_go.Schema as Schema
use vortex_go.Schema.{Kind, is_kind}
use vortex_go.Encoding.Word.{write_little}
use vortex_go.Pco.Words.{Floats}
use vortex_go.Pco.Reader.{Reader, open_reader, finish}
use vortex_go.Pco.Page.{PageVar, read_page}
use vortex_go.Pco.Output.{columns, by_columns}
use vortex_go.Pco.Chunk.{Chunk, parse_chunk}

-- The values of a page, packed, and the vars of a page read to the end of its buffer.
unfoldable pub page_vars : Chunk → List ℕ → (n : ℕ) → Result (List PageVar)
unfolding read_page finish
page_vars c b n =
    let (r, reader) = read_page c.delta c.vars n (open_reader b) in
    do ps ← r; (finish reader).0; ok ps

-- Byte i of a list, where there is one.
abbrev is_byte : List ℕ → ℕ → Bool
is_byte [] k = false
is_byte (x ∷ xs) k = leb x k

-- The header: a version from 1 to 3 alone, or the version 4 with a second byte of at most 1
unfoldable pub header_version : List ℕ → Result ℕ
header_version [] = err (failed "unsupported or malformed header")
header_version (v ∷ rest) =
    if ltb 4 v
      || v == 0
      || leb 4 v && (not (length rest == 1) || not (is_byte rest 1))
      || ltb v 4 && not (length rest == 0)
    then err (failed "unsupported or malformed header")
    else ok v

-- The number of the pages, and of their values, after `total` of them.
unfoldable pub count_pages : List ℕ → (pages total : ℕ) → Result (ℕ × ℕ)
count_pages [] np total = ok (np, total)
count_pages (n ∷ ns) np total =
    if ltb (2 ^ 24) n then err (failed "oversized page") else count_pages ns (np + 1) (total + n)

unfoldable pub count_chunks : List (List ℕ) → (pages total : ℕ) → Result (ℕ × ℕ)
unfolding count_pages
count_chunks [] np total = ok (np, total)
count_chunks (c ∷ cs) np total = do
  (np', total') ← count_pages c np total
  count_chunks cs np' total'

-- The values, of `bytes` bytes each.
unfoldable pub pack : (bytes : ℕ) → List ℕ → List ℕ
unfolding write_little
pack w [] = []
pack w (v ∷ vs) = write_little w v ++ pack w vs

module _ (floats : Floats) where
  -- c.page(data, n)
  unfoldable pub page : Chunk → List ℕ → (n : ℕ) → Result (List ℕ)
  unfolding page_vars columns by_columns
  page c b n = do ps ← page_vars c b n; xs ← columns c.delta n ps; by_columns floats c n xs

  -- The loop over the pages of a chunk: their bytes, and the pages of the other chunks.
  unfoldable pub decode_pages :
      Chunk → (counts : List ℕ) → (pages : List (List ℕ)) → Result (List ℕ × List (List ℕ))
  unfolding page pack
  decode_pages c [] pages = ok ([], pages)
  decode_pages c (n ∷ counts) [] = err panic
  decode_pages c (n ∷ counts) (b ∷ pages) = do
    values ← page c b n
    (out, rest) ← decode_pages c counts pages
    ok (pack (c.width / 8) values ++ out, rest)

  -- The loop over the chunks.
  unfoldable pub decode_chunks :
      (version width : ℕ)
      → Kind
      → (chunks : List (List ℕ)) → (counts : List (List ℕ)) → (pages : List (List ℕ))
      → Result (List ℕ)
  unfolding parse_chunk decode_pages
  decode_chunks version width kind [] counts pages = ok []
  decode_chunks version width kind (b ∷ chunks) [] pages = err panic
  decode_chunks version width kind (b ∷ chunks) (ns ∷ counts) pages = do
    c ← parse_chunk floats b version width kind
    (out, pages') ← decode_pages c ns pages
    rest ← decode_chunks version width kind chunks counts pages'
    ok (out ++ rest)

  -- Decode(header, chunks, pages, pageCounts, kind)
  unfoldable pub decode :
      (header : List ℕ)
      → (chunks pages : List (List ℕ)) → (counts : List (List ℕ)) → Kind
      → Result (List ℕ)
  unfolding header_version count_chunks decode_chunks
  decode header chunks pages counts kind = do
    refuse (Schema.width kind == 0 || is_kind kind Kind.bool) (failed "unsupported type")
    version ← header_version header
    refuse (not (length chunks == length counts)) (failed "chunk count mismatch")
    (np, total) ← count_chunks counts 0 0
    refuse (not (np == length pages) || ltb (2 ^ 24) total)
        (failed "invalid page counts or oversized array")
    decode_chunks version (Schema.width kind * 8) kind chunks counts pages
