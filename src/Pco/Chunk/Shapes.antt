-- ===== src/Pco/Chunk/Shapes.antt =====
-- What `parseChunk` returns: the latent variables that its mode and its delta coding need, in order.
use vortex_go.Base.{
  ℕ, zero, suc, ◌+◌, ◌/◌, ◌≡◌, inl, inr, false, not, ◌||◌, List, [], ◌∷◌, ◌++◌, ltb, ◌==◌,
  Bool-cases,
}
use vortex_go.Outcome.{failed}
use vortex_go.Outcome.Sound.{failed-ne-panic}
use vortex_go.Outcome.Always.{Always, Always-pure, Always-raise, Always-bind, Always-refuse}
use vortex_go.Schema.{Kind}
use vortex_go.Pco.Reader.{read, read_all, align}
use vortex_go.Pco.Reader.Total.{read-Always, read_all-Always, align-Always}
use vortex_go.Pco.Latent.{Latent}
use vortex_go.Pco.Mode.{
  Mode, classic, int_mult, float_mult, float_quant, dictionary, Delta, plain, consecutive, lookback,
  convolution, secondary, is_plain, mode_of, delta_of, parse_delta,
}
use vortex_go.Pco.Chunk.{Chunk, primary_width}
use vortex_go.Pco.Page.Filled.{Shape, AreLatents}

-- The variables of a chunk: the lookbacks, where there are any, the primary, and the secondary of some
-- modes.
abbrev pub look_shapes : Delta → List Shape
look_shapes (lookback k w s) = record { wide = 32; deltas = false } ∷ []
look_shapes plain = []
look_shapes (consecutive k s) = []
look_shapes (convolution q b ws) = []

abbrev pub second_shapes : (width : ℕ) → Delta → Mode → List Shape
second_shapes width delta classic = []
second_shapes width delta (dictionary d) = []
second_shapes width delta (int_mult b) = record { wide = width; deltas = secondary delta } ∷ []
second_shapes width delta (float_mult b) = record { wide = width; deltas = secondary delta } ∷ []
second_shapes width delta (float_quant q) = record { wide = width; deltas = secondary delta } ∷ []

abbrev pub shapes : (width : ℕ) → Delta → Mode → List Shape
shapes width delta mode =
    look_shapes delta
    ++ record { wide = primary_width width mode; deltas = not (is_plain delta) }
      ∷ second_shapes width delta mode

-- A chunk of a width and a kind, with the variables that it needs, each with a closed table.
pub record IsChunk (width : ℕ) (kind : Kind) (c : Chunk) : Type 0 where
  pub wide : c.width ≡ width
  pub of_kind : c.kind ≡ kind
  pub vars : AreLatents (shapes width c.delta c.mode) c.vars

pub AreLatents-++ :
    (ss ts : List Shape) (vs ws : List Latent)
    → AreLatents ss vs
    → AreLatents ts ws
    → AreLatents (ss ++ ts) (vs ++ ws)
AreLatents-++ [] ts [] ws h k = k
AreLatents-++ [] ts (v ∷ vs) ws h k = absurd h
AreLatents-++ (s ∷ ss) ts [] ws h k = absurd h
AreLatents-++ (s ∷ ss) ts (v ∷ vs) ws (h, hs) k = (h, AreLatents-++ ss ts vs ws hs k)

pub mode_of-Always : (total width m : ℕ) → Always (mode_of total width m) (λ x. Unit {0})
unfolding mode_of
mode_of-Always total width zero = Always-pure classic tt
mode_of-Always total width (suc zero) =
    Always-bind (read width) _ (read-Always width) λ base lt. Always-pure _ tt
mode_of-Always total width (suc (suc zero)) =
    Always-bind (read width) _ (read-Always width) λ base lt. Always-pure _ tt
mode_of-Always total width (suc (suc (suc zero))) =
    Always-bind (read 8) _ (read-Always 8) λ quant lt. Always-pure _ tt
mode_of-Always total width (suc (suc (suc (suc zero)))) =
    Always-bind (read 25) _ (read-Always 25) λ n lt. Always-bind align _ align-Always λ u t.
      Always-refuse (ltb (total / width) n) (failed _) _ (failed-ne-panic _) λ fits.
        Always-bind (read_all n width) _ (read_all-Always n width) λ dict all. Always-pure _ tt
mode_of-Always total width (suc (suc (suc (suc (suc m))))) =
    Always-raise (failed _) (failed-ne-panic _)

delta_of-Always : (d : ℕ) → Always (delta_of d) (λ x. Unit {0})
unfolding delta_of
delta_of-Always zero = Always-pure plain tt
delta_of-Always (suc zero) = Always-bind (read 3) _ (read-Always 3) λ n lt.
    Always-bind (read 1) _ (read-Always 1) λ s lt'.
      Always-refuse (n == 0) (failed _) _ (failed-ne-panic _) λ some_order. Always-pure _ tt
delta_of-Always (suc (suc zero)) = Always-bind (read 5) _ (read-Always 5) λ wl lt.
    Always-bind (read 4) _ (read-Always 4) λ sl lt'.
      Always-bind (read 1) _ (read-Always 1) λ s lt''.
        Always-refuse (ltb 24 (1 + wl) || ltb (1 + wl) sl) (failed _) _ (failed-ne-panic _)
          λ fits. Always-pure _ tt
delta_of-Always (suc (suc (suc zero))) = Always-bind (read 5) _ (read-Always 5) λ quant lt.
    Always-bind (read 64) _ (read-Always 64) λ bias lt'.
      Always-bind (read 5) _ (read-Always 5) λ n lt''.
        Always-bind (read_all (1 + n) 32) _ (read_all-Always (1 + n) 32) λ ws all. Always-pure _ tt
delta_of-Always (suc (suc (suc (suc d)))) = Always-raise (failed _) (failed-ne-panic _)

pub parse_delta-Always : (version : ℕ) → Always (parse_delta version) (λ x. Unit {0})
unfolding parse_delta
parse_delta-Always version = elim (Bool-cases (ltb version 3)) [
  | inl old ↦ rw old (Always-bind (read 3) _ (read-Always 3) λ n lt. Always-pure _ tt)
  | inr new ↦ rw new (Always-bind (read 4) delta_of (read-Always 4) λ d lt. delta_of-Always d)
]
