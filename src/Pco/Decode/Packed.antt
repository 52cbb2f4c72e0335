-- ===== src/Pco/Decode/Packed.antt =====
-- `Decode` on any input: it does not panic, and its output has the bytes of the values that the page
-- counts ask for.
use vortex_go.Base.{
  ℕ, zero, suc, ◌+◌, ◌*◌, ◌/◌, ◌^◌, ◌≤◌, ◌<◌, ◌≡◌, sym, ◌∙◌, not, ◌||◌, List, [], ◌∷◌, ◌++◌, All,
  All-append, length, length-append, ltb, ◌==◌, subst, arith,
}
use vortex_go.Outcome.{failed}
use vortex_go.Outcome.Sound.{
  Sound, Sound-ok, Sound-err, Sound-bind, Sound-imp, Sound-refuse, Sound-unless, failed-ne-panic,
}
use vortex_go.Encoding.Word.{write_little, length-write_little}
use vortex_go.Schema as Schema
use vortex_go.Schema.{Kind, is_kind}
use vortex_go.Pco.Words.{Floats}
use vortex_go.Pco.Chunk.{Chunk, parse_chunk}
use vortex_go.Pco.Chunk.Shapes.{IsChunk}
use vortex_go.Pco.Chunk.Parsed.{parse_chunk-IsChunk}
use vortex_go.Pco.Decode.{
  header_version, count_pages, count_chunks, pack, page, decode_pages, decode_chunks, decode,
}
use vortex_go.Pco.Decode.Pages.{page-AreValues}

abbrev pub sum : List ℕ → ℕ
sum [] = 0
sum (n ∷ ns) = n + sum ns

-- All the values, and all the pages, of some chunks.
abbrev pub sum_all : List (List ℕ) → ℕ
sum_all [] = 0
sum_all (c ∷ cs) = sum c + sum_all cs

abbrev pub count_all : List (List ℕ) → ℕ
count_all [] = 0
count_all (c ∷ cs) = length c + count_all cs

-- So many bytes.
abbrev pub AreBytes : ℕ → List ℕ → Type 0
AreBytes n b = (length b ≡ n) × All (λ x. x < 256) b

AreBytes-++ : (m n : ℕ) (b d : List ℕ) → AreBytes m b → AreBytes n d → AreBytes (m + n) (b ++ d)
AreBytes-++ m n b d (len, all) (len', all') =
    (length-append b d ∙ omega arith, All-append (λ x. x < 256) b d all all')

All-write_little : (w x : ℕ) → All (λ y. y < 256) (write_little w x)
unfolding write_little
All-write_little zero x = tt
All-write_little (suc w) x = (omega arith, All-write_little w (x / 256))

pack-AreBytes : (w : ℕ) (vs : List ℕ) → AreBytes (length vs * w) (pack w vs)
unfolding pack
pack-AreBytes w [] = (omega arith, tt)
pack-AreBytes w (v ∷ vs) =
    let (len, all) =
      AreBytes-++ w (length vs * w) (write_little w v) (pack w vs)
        (length-write_little w v, All-write_little w v) (pack-AreBytes w vs) in
    (len ∙ grind arith, all)

count_pages-Sound :
    (ns : List ℕ) (np total : ℕ)
    → Sound (count_pages ns np total) (λ q. (q.0 ≡ np + length ns) × (q.1 ≡ total + sum ns))
unfolding count_pages
count_pages-Sound [] np total = Sound-ok (np, total) (omega arith, omega arith)
count_pages-Sound (n ∷ ns) np total =
    Sound-unless (ltb (2 ^ 24) n) (failed _) _ (failed-ne-panic _) (
      Sound-imp _ (count_pages-Sound ns (np + 1) (total + n))
        (λ (a, b) (e, f). (omega arith, omega arith)))

count_chunks-Sound :
    (cs : List (List ℕ)) (np total : ℕ)
    → Sound (count_chunks cs np total) (λ q. (q.0 ≡ np + count_all cs) × (q.1 ≡ total + sum_all cs))
unfolding count_chunks
count_chunks-Sound [] np total = Sound-ok (np, total) (omega arith, omega arith)
count_chunks-Sound (c ∷ cs) np total =
    Sound-bind (count_pages c np total) _ (count_pages-Sound c np total) λ (a, b) (e, f).
      Sound-imp _ (count_chunks-Sound cs a b) (λ (a', b') (e', f'). (omega arith, omega arith))

module _ (floats : Floats) (kind : Kind) (w : ℕ) (pos : 0 < w) where
  decode_pages-Sound :
      (c : Chunk) (counts : List ℕ) (pages : List (List ℕ))
      → IsChunk (w * 8) kind c
      → length counts ≤ length pages
      → Sound
          (decode_pages floats c counts pages)
          (λ q. AreBytes (sum counts * w) q.0 × (length q.1 + length counts ≡ length pages))
  unfolding decode_pages
  decode_pages-Sound c [] pages h le = Sound-ok ([], pages) ((omega arith, tt), omega arith)
  decode_pages-Sound c (n ∷ counts) [] h le = absurd (omega arith)
  decode_pages-Sound c (n ∷ counts) (b ∷ pages) h le =
      Sound-bind (page floats c b n) _ (page-AreValues floats (w * 8) kind c b n (omega arith) h)
        λ values (len, small).
          Sound-bind (decode_pages floats c counts pages) _
            (decode_pages-Sound c counts pages h (omega arith))
            λ (out, rest) (bytes, left).
              let wide : c.width / 8 ≡ w = omega (arith, h.wide) in
              let packed : AreBytes (n * w) (pack (c.width / 8) values) =
                subst (λ k. AreBytes (k * w) (pack (c.width / 8) values)) len
                  (subst (λ k. AreBytes (length values * w) (pack k values)) (sym wide)
                    (pack-AreBytes w values)) in
              let (total, all) = AreBytes-++ (n * w) (sum counts * w) _ out packed bytes in
              Sound-ok (pack (c.width / 8) values ++ out, rest)
                ((total ∙ grind arith, all), omega arith)

  decode_chunks-Sound :
      (version : ℕ) (chunks : List (List ℕ)) (counts pages : List (List ℕ))
      → length chunks ≡ length counts
      → count_all counts ≤ length pages
      → Sound
          (decode_chunks floats version (w * 8) kind chunks counts pages)
          (AreBytes (sum_all counts * w))
  unfolding decode_chunks
  decode_chunks-Sound version [] [] pages same le = Sound-ok [] (omega arith, tt)
  decode_chunks-Sound version [] (ns ∷ counts) pages same le = absurd (omega arith)
  decode_chunks-Sound version (b ∷ chunks) [] pages same le = absurd (omega arith)
  decode_chunks-Sound version (b ∷ chunks) (ns ∷ counts) pages same le =
      Sound-bind (parse_chunk floats b version (w * 8) kind) _
        (parse_chunk-IsChunk floats b version (w * 8) kind)
        λ c h.
          Sound-bind (decode_pages floats c ns pages) _
            (decode_pages-Sound c ns pages h (omega arith))
            λ (out, pages') (bytes, left).
              Sound-bind (decode_chunks floats version (w * 8) kind chunks counts pages') _
                (decode_chunks-Sound version chunks counts pages' (omega arith) (omega arith))
                λ rest bytes'.
                  let (total, all) =
                    AreBytes-++ (sum ns * w) (sum_all counts * w) out rest bytes bytes' in
                  Sound-ok (out ++ rest) (total ∙ grind arith, all)

header_version-Sound : (b : List ℕ) → Sound (header_version b) (λ v. Unit {0})
unfolding header_version
header_version-Sound [] = Sound-err (failed _) (failed-ne-panic _)
header_version-Sound (v ∷ rest) = Sound-unless _ (failed _) _ (failed-ne-panic _) (Sound-ok v tt)

-- On any header, chunks, pages, counts and kind, Decode does not panic. Where it succeeds, there is one
-- list of counts for each chunk and one page for each count, at most 2^24 values in all, and the output
-- is as many bytes as these values have in the kind.
pub decode-AreBytes :
    (floats : Floats) (header : List ℕ) (chunks pages counts : List (List ℕ)) (kind : Kind)
    → Sound (decode floats header chunks pages counts kind) (λ out.
      (length chunks ≡ length counts)
      × (length pages ≡ count_all counts)
      × (sum_all counts ≤ 2 ^ 24)
      × AreBytes (sum_all counts * Schema.width kind) out)
unfolding decode
decode-AreBytes floats header chunks pages counts kind =
    Sound-refuse (Schema.width kind == 0 || is_kind kind Kind.bool) (failed _) _ (failed-ne-panic _)
      λ known. Sound-bind (header_version header) _ (header_version-Sound header) λ version u.
        Sound-refuse (not (length chunks == length counts)) (failed _) _ (failed-ne-panic _) λ same.
          Sound-bind (count_chunks counts 0 0) _ (count_chunks-Sound counts 0 0)
            λ (np, total) (e, f).
              Sound-refuse (not (np == length pages) || ltb (2 ^ 24) total) (failed _) _
                (failed-ne-panic _)
                λ fits.
                  let chunk_each : length chunks ≡ length counts = ground arith in
                  let page_each : length pages ≡ count_all counts = ground arith in
                  let few : sum_all counts ≤ 2 ^ 24 = ground arith in
                  let wide : 0 < Schema.width kind = ground arith in
                  Sound-imp _
                    (decode_chunks-Sound floats kind (Schema.width kind) wide version chunks counts
                      pages chunk_each (omega arith))
                    (λ out bytes. (chunk_each, page_each, few, bytes))
