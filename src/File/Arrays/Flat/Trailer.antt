-- ===== src/File/Arrays/Flat/Trailer.antt =====
-- The trailer of an array segment (decodeFlat of array.go): the length of the tree, behind the tree.
use vortex_go.Base.{
  ℕ, ◌+◌, ◌-◌, ◌^◌, ◌<◌, ◌≡◌, refl, sym, ap, ◌∙◌, false, List, ◌++◌, append_assoc, take, drop,
  length, length-append, drop-++, take-++, ltb, arith,
}
use vortex_go.Outcome.{ok}
use vortex_go.Encoding.Word.{
  length-write_little, read_little, write_little, read_little-write_little,
}
use vortex_go.File.Arrays.Flat.{trailer, split_trailer}

-- A segment as it is written: the data, the tree, and the tree's length in four bytes.
abbrev pub segment_of : (bytes tree : List ℕ) → List ℕ
segment_of bytes tree = bytes ++ (tree ++ write_little 4 (length tree))

module _ (bytes tree : List ℕ) (small : length tree < 256 ^ 4) where
  length-segment_of : length (segment_of bytes tree) ≡ length bytes + length tree + 4
  length-segment_of =
      let a = length-append bytes (tree ++ write_little 4 (length tree)) in
      let b = length-append tree (write_little 4 (length tree)) in
      let c = length-write_little 4 (length tree) in omega arith

  trailer-segment_of : trailer (segment_of bytes tree) ≡ length tree
  unfolding trailer
  trailer-segment_of =
      let l = length-segment_of in
      let m = length-append bytes tree in
      let front : length (segment_of bytes tree) - 4 ≡ length (bytes ++ tree) = omega arith in
      let end : drop (length (segment_of bytes tree) - 4) (segment_of bytes tree)
          ≡ write_little 4 (length tree) =
        ap (λ k. drop k (segment_of bytes tree)) front
        ∙ ap (drop (length (bytes ++ tree)))
            (sym (append_assoc bytes tree (write_little 4 (length tree))))
        ∙ drop-++ (bytes ++ tree) (write_little 4 (length tree)) in
      ap (λ b. read_little b 4) end ∙ read_little-write_little 4 (length tree) small

-- If the tree has less than 2^32 bytes, then the data, the tree and the trailer that gives the tree's
-- length, one behind the other, are split into that tree and that data.
pub split_trailer-segment_of :
    (bytes tree : List ℕ)
    → length tree < 256 ^ 4
    → split_trailer (segment_of bytes tree) ≡ ok (tree, bytes)
unfolding split_trailer
split_trailer-segment_of bytes tree small =
    let l = length-segment_of bytes tree small in
    let t = trailer-segment_of bytes tree small in
    let b = segment_of bytes tree in
    let long : ltb (length b) 4 ≡ false = ground arith in
    let inside : ltb (length b - 4) (length tree) ≡ false = ground arith in
    let start : length b - 4 - length tree ≡ length bytes = omega arith in
    let rest : drop (length bytes) b ≡ tree ++ write_little 4 (length tree) = drop-++ bytes _ in
    let front : take (length bytes) b ≡ bytes = take-++ bytes _ in
    let middle : take (length tree) (tree ++ write_little 4 (length tree)) ≡ tree =
      take-++ tree _ in
    rw (long, t, inside, start, rest, front, middle) refl
