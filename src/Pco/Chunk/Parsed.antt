-- ===== src/Pco/Chunk/Parsed.antt =====
-- What `parseChunk` returns: the latent variables that its mode and its delta coding need, in order.
use vortex_go.Base.{ℕ, ◌*◌, ◌≡◌, refl, false, not, ◌||◌, List, [], ◌∷◌, length, ltb, leb, subst}
use vortex_go.Outcome.{failed}
use vortex_go.Outcome.Act.{lift}
use vortex_go.Outcome.Sound.{Sound, Sound-ok, Sound-check, Sound-unless, failed-ne-panic}
use vortex_go.Outcome.Always.{Always, Always-pure, Always-lift, Always-bind}
use vortex_go.Schema.{Kind}
use vortex_go.Pco.Words.{Floats}
use vortex_go.Pco.Reader.{open_reader, read, finish}
use vortex_go.Pco.Reader.Total.{read-Always, finish-Always}
use vortex_go.Pco.Table.{Bin}
use vortex_go.Pco.Latent.{parse_latent}
use vortex_go.Pco.Latent.Closed.{parse_latent-IsLatent}
use vortex_go.Pco.Mode.{
  Mode, classic, int_mult, float_mult, float_quant, dictionary, Delta, plain, consecutive, lookback,
  convolution, secondary, is_plain, mode_of, parse_delta,
}
use vortex_go.Pco.Chunk.{
  check_bins, lookback_vars, primary_width, secondary_vars, check_mode, check_delta, parse_fields,
  parse_chunk,
}
use vortex_go.Pco.Page.Filled.{AreLatents}
use vortex_go.Pco.Chunk.Shapes.{
  look_shapes, second_shapes, IsChunk, AreLatents-++, mode_of-Always, parse_delta-Always,
}

check_bins-Sound : (window : ℕ) (bins : List Bin) → Sound (check_bins window bins) (λ u. Unit {0})
unfolding check_bins
check_bins-Sound window [] = Sound-ok tt tt
check_bins-Sound window (b ∷ bins) =
    Sound-unless (ltb b.lower 1 || ltb window b.lower) (failed _) _ (failed-ne-panic _)
      (check_bins-Sound window bins)

lookback_vars-Always : (d : Delta) → Always (lookback_vars d) (AreLatents (look_shapes d))
unfolding lookback_vars
lookback_vars-Always plain = Always-pure [] tt
lookback_vars-Always (consecutive n s) = Always-pure [] tt
lookback_vars-Always (convolution q b ws) = Always-pure [] tt
lookback_vars-Always (lookback n window s) =
    Always-bind (parse_latent 32 false) _ (parse_latent-IsLatent 32 false) λ v h.
      Always-bind (lift (check_bins window v.bins)) _
        (Always-lift _ (check_bins-Sound window v.bins)) λ u t. Always-pure (v ∷ []) (h, tt)

secondary_vars-Always :
    (width : ℕ) (d : Delta) (mode : Mode)
    → Always (secondary_vars width d mode) (AreLatents (second_shapes width d mode))
unfolding secondary_vars
secondary_vars-Always width d classic = Always-pure [] tt
secondary_vars-Always width d (dictionary dict) = Always-pure [] tt
secondary_vars-Always width d (int_mult b) =
    Always-bind (parse_latent width (secondary d)) _ (parse_latent-IsLatent width (secondary d))
      λ v h. Always-pure (v ∷ []) (h, tt)
secondary_vars-Always width d (float_mult b) =
    Always-bind (parse_latent width (secondary d)) _ (parse_latent-IsLatent width (secondary d))
      λ v h. Always-pure (v ∷ []) (h, tt)
secondary_vars-Always width d (float_quant q) =
    Always-bind (parse_latent width (secondary d)) _ (parse_latent-IsLatent width (secondary d))
      λ v h. Always-pure (v ∷ []) (h, tt)

module _ (floats : Floats) where
  check_mode-Sound :
      (width : ℕ) (kind : Kind) (mode : Mode)
      → Sound (check_mode floats width kind mode) (λ u. Unit {0})
  unfolding check_mode
  check_mode-Sound width kind classic = Sound-ok tt tt
  check_mode-Sound width kind (int_mult b) = Sound-check _ _ (failed-ne-panic _)
  check_mode-Sound width kind (float_mult b) = Sound-check _ _ (failed-ne-panic _)
  check_mode-Sound width kind (float_quant q) = Sound-check _ _ (failed-ne-panic _)
  check_mode-Sound width kind (dictionary d) = Sound-ok tt tt

  check_delta-Sound :
      (pw : ℕ) (raw : Delta)
      → Sound (check_delta floats pw raw) (λ d. look_shapes raw ≡ look_shapes d)
  unfolding check_delta
  check_delta-Sound pw plain = Sound-ok plain refl
  check_delta-Sound pw (consecutive n s) = Sound-ok _ refl
  check_delta-Sound pw (lookback n w s) = Sound-ok _ refl
  check_delta-Sound pw (convolution quant bias ws) =
      Sound-unless (ltb 32 pw) (failed _) _ (failed-ne-panic _) (
        Sound-unless (leb (pw * 2) quant) (failed _) _ (failed-ne-panic _)
          (Sound-unless _ (failed _) _ (failed-ne-panic _) (Sound-ok _ refl)))

  parse_fields-Always :
      (total version width : ℕ) (kind : Kind)
      → Always (parse_fields floats total version width kind) (IsChunk width kind)
  unfolding parse_fields
  parse_fields-Always total version width kind = Always-bind (read 4) _ (read-Always 4) λ m lt.
      Always-bind (mode_of total width m) _ (mode_of-Always total width m) λ mode u1.
        Always-bind (lift (check_mode floats width kind mode)) _
          (Always-lift _ (check_mode-Sound width kind mode))
          λ u2 u3. Always-bind (parse_delta version) _ (parse_delta-Always version) λ raw u4.
            Always-bind (lookback_vars raw) _ (lookback_vars-Always raw) λ looks h.
              Always-bind (lift (check_delta floats (primary_width width mode) raw)) _
                (Always-lift _ (check_delta-Sound (primary_width width mode) raw))
                λ delta same.
                  Always-bind (parse_latent (primary_width width mode) (not (is_plain delta))) _
                    (parse_latent-IsLatent _ _)
                    λ v h'.
                      Always-bind (secondary_vars width delta mode) _
                        (secondary_vars-Always width delta mode)
                        λ rest h''. Always-bind finish _ finish-Always λ u5 u6.
                          Always-pure _ (record {
                            wide = refl;
                            of_kind = refl;
                            vars =
                                AreLatents-++ (look_shapes delta) _ looks (v ∷ rest)
                                  (subst (λ ss. AreLatents ss looks) same h) (h', h'');
                          })

  -- On any bytes, parseChunk does not panic, and a chunk that it returns has the width and the kind, and
  -- the variables that its mode and its delta coding need, in their order, each with a closed table.
  pub parse_chunk-IsChunk :
      (b : List ℕ) (version width : ℕ) (kind : Kind)
      → Sound (parse_chunk floats b version width kind) (IsChunk width kind)
  unfolding parse_chunk
  parse_chunk-IsChunk b version width kind =
      (parse_fields-Always (length b * 8) version width kind).each (open_reader b)
