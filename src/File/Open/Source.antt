-- ===== src/File/Open/Source.antt =====
-- `Open` as a whole, of a source that answers with its bytes.
use vortex_go.Base.{
  ℕ, ◌+◌, ◌-◌, ◌≤◌, ◌≡◌, refl, ap, subst, ◌∙◌, Bool, true, false, not, Option, List, arith, ltb,
}
use vortex_go.Base.Int.{pos}
use vortex_go.Outcome.{Error, Result, ok, err, refuse, refuse-ok}
use vortex_go.Outcome.Act.{bind-eq-ok, lift}
use vortex_go.Schema.Arrow.{ArrowTypes}
use vortex_go.File.Tables.{Tables}
use vortex_go.File.Limits.{check_root, max_metadata, recover_parse}
use vortex_go.File.Read.{ReadAnswer, bytes_from, read}
use vortex_go.File.Read.Exact.{IsSource, read-Exact}
use vortex_go.File.Open.{open_file, open_body, get_segment, ps_start, recovering}
use vortex_go.File.Open.Parts.{File, is_magic, parse_eof}
use vortex_go.File.Open.Opened.{IsOpened, parse_file-IsOpened}

-- The bytes of a file of this format, version 1: the magic at both ends, and a postscript of an
-- allowed length that fits before the trailer. The code does not ask that it begins behind the header's
-- magic.
pub record IsVortex (size : ℕ) (byte : ℕ → ℕ) : Type 0 where
  pub long : 12 ≤ size
  pub header : is_magic (bytes_from byte 0 4) ≡ true
  pub postscript : ℕ
  pub trailer : parse_eof (bytes_from byte (size - 8) 8) ≡ ok postscript
  pub fits : postscript + 8 ≤ size

ps_start-fits :
    (size ps_len start : ℕ) → 8 ≤ size → ps_start size ps_len ≡ pos start → ps_len + 8 ≤ size
unfolding ps_start
ps_start-fits size ps_len start h e = ground arith

not-false : (b : Bool) → not b ≡ false → b ≡ true
not-false true h = refl
not-false false h = cc

long_enough : (size : ℕ) → ltb size 12 ≡ false → 12 ≤ size
long_enough size h = ground arith

recover_parse-ok : {A : Type 0} (r : Result A) {a : A} → recover_parse r ≡ ok a → r ≡ ok a
unfolding recover_parse
recover_parse-ok (ok x) h = h
recover_parse-ok (err e) h = cc

module _ (tables : Tables) (arrow : ArrowTypes) {World : Type 0}
    (ctx_err : World → Option Error × World)
    (read_at : (offset want : ℕ) → World → ReadAnswer × World) (byte : ℕ → ℕ) where
  content :
      (size start length : ℕ) (w : World) (b : List ℕ)
      → IsSource ctx_err read_at byte
      → (read ctx_err read_at size (pos start) length max_metadata w).0 ≡ ok b
      → b ≡ bytes_from byte start length
  content size start length w b src h =
      let (s, e, a, l, same) =
        read-Exact ctx_err read_at byte size (pos start) length max_metadata w b src h in
      let here : s ≡ start = ground arith in same ∙ ap (λ k. bytes_from byte k length) here

  -- If Open returns a file of a source that keeps the promise of io.ReaderAt, then the source's bytes
  -- have the magic at both ends and an accepted trailer whose postscript fits before it, and the file
  -- is as `IsOpened` says: its root is a struct that is not nullable and has distinct column names, its segments lie within the
  -- source, and its layout tree is within the limits and names no other segments.
  pub open_file-IsOpened :
      (size : ℕ) (w : World) (f : File arrow.DataType)
      → IsSource ctx_err read_at byte
      → (open_file tables arrow ctx_err read_at size w).0 ≡ ok f
      → IsVortex size byte × IsOpened size f
  unfolding open_file recovering open_body
  open_file-IsOpened size w f src h0 =
      let h = recover_parse-ok (open_body tables arrow ctx_err read_at size w).0 h0 in
      let (u1, p1, h1) = bind-eq-ok (lift (refuse (ltb size 12) _)) _ w h in
      let (header, p2, h2) = bind-eq-ok (read ctx_err read_at size (pos 0) 4 max_metadata) _ _ h1 in
      let (u3, p3, h3) = bind-eq-ok (lift (refuse (not (is_magic header)) _)) _ _ h2 in
      let (eof, p4, h4) =
        bind-eq-ok (read ctx_err read_at size (pos (size - 8)) 8 max_metadata) _ _ h3 in
      let (ps_len, p5, h5) = bind-eq-ok (lift (parse_eof eof)) _ _ h4 in
      let (bytes, p6, h6) =
        bind-eq-ok (read ctx_err read_at size (ps_start size ps_len) ps_len max_metadata) _ _ h5 in
      let (u7, p7, h7) = bind-eq-ok (lift (check_root bytes)) _ _ h6 in
      let (ps, p8, h8) = bind-eq-ok (lift (tables.postscript bytes)) _ _ h7 in
      let get = get_segment tables arrow ctx_err read_at size (size - 8 - ps_len) in
      let (dtype, p9, h9) = bind-eq-ok (get ps.dtype) _ _ h8 in
      let (footer, p10, h10) = bind-eq-ok (get ps.footer) _ _ h9 in
      let (layout, p11, h11) = bind-eq-ok (get ps.layout) _ _ h10 in
      let magic : is_magic header ≡ true = not-false _ (refuse-ok _ _ p3) in
      let long : ltb size 12 ≡ false = refuse-ok _ _ p1 in
      (
        record {
          long = long_enough size long;
          header = subst (λ b. is_magic b ≡ true) (content size 0 4 w header src p2) magic;
          postscript = ps_len;
          trailer =
              subst (λ b. parse_eof b ≡ ok ps_len) (content size (size - 8) 8 _ eof src p4) p5;
          fits =
              let (start, at, inside, le, exact) =
                read-Exact ctx_err read_at byte size (ps_start size ps_len) ps_len max_metadata _
                  bytes src p6 in
              let enough = long_enough size long in
              ps_start-fits size ps_len start (omega arith) at;
        },
        parse_file-IsOpened tables arrow size dtype footer layout f h11,
      )
