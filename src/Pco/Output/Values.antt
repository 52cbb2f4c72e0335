-- ===== src/Pco/Output/Values.antt =====
-- The values of a page, from its columns: as many as were asked for, each of the width of the kind.
use vortex_go.Base.{
  ℕ, zero, suc, ◌+◌, ◌-◌, ◌^◌, ◌≤◌, ◌<◌, ◌≡◌, refl, inl, inr, Bool, true, false, List, [], ◌∷◌, All,
  length, ltb, leb, arith, Bool-cases,
}
use vortex_go.Outcome.{failed}
use vortex_go.Outcome.Sound.{Sound, Sound-ok, Sound-bind, Sound-refuse, failed-ne-panic}
use vortex_go.Encoding.Values.{index}
use vortex_go.Schema.{Kind, is_signed}
use vortex_go.Base.Powers.{two_pow-pos}
use native.Mathlib.Nat.{mod-lt}
use vortex_go.Pco.Lists.{index-Sound, All-true}
use vortex_go.Pco.Words.{Floats, mask}
use vortex_go.Pco.Words.Bounds.{flip-lt, ordered_bits-lt}
use vortex_go.Pco.Mode.{Mode, classic, int_mult, float_mult, float_quant, dictionary}
use vortex_go.Pco.Chunk.{Chunk, is_floating}
use vortex_go.Pco.Output.{by_mode, to_kind, output, by_columns}

-- Whether a mode has a secondary variable.
abbrev pub has_secondary : Mode → Bool
has_secondary classic = false
has_secondary (int_mult b) = true
has_secondary (float_mult b) = true
has_secondary (float_quant q) = true
has_secondary (dictionary d) = false

-- The values of a chunk's kind, n of them.
abbrev pub AreValues : (w n : ℕ) → List ℕ → Type 0
AreValues w n xs = (length xs ≡ n) × All (λ x. x < 2 ^ w) xs

-- The columns that a mode needs: one, or two.
abbrev pub Suffice : Mode → ℕ → Type 0
Suffice mode k = (0 < k) × (has_secondary mode ≡ true → 1 < k)

module _ (floats : Floats) where
  by_mode-Sound :
      (width : ℕ) (mode : Mode) (v i : ℕ) (s : List ℕ)
      → (has_secondary mode ≡ true → i < length s)
      → Sound (by_mode floats width mode v i s) (λ x. Unit {0})
  unfolding by_mode
  by_mode-Sound width classic v i s h = Sound-ok v tt
  by_mode-Sound width (int_mult base) v i s h =
      Sound-bind (index s i) _ (index-Sound _ s i (h refl) (All-true s)) λ x u. Sound-ok _ tt
  by_mode-Sound width (float_mult base) v i s h =
      Sound-bind (index s i) _ (index-Sound _ s i (h refl) (All-true s)) λ x u. Sound-ok _ tt
  by_mode-Sound width (float_quant quant) v i s h =
      Sound-bind (index s i) _ (index-Sound _ s i (h refl) (All-true s)) λ low u.
        Sound-refuse (ltb (2 ^ quant - 1) low) (failed _) _ (failed-ne-panic _)
          λ fits. Sound-ok _ tt
  by_mode-Sound width (dictionary dict) v i s h =
      Sound-refuse (leb (length dict) v) (failed _) _ (failed-ne-panic _)
        λ known. index-Sound _ dict v (ground arith) (All-true dict)

  to_kind-lt : (w : ℕ) (kind : Kind) (v : ℕ) → 0 < w → to_kind floats w kind v < 2 ^ w
  unfolding to_kind
  to_kind-lt w kind v h =
      let small : mask w v < 2 ^ w = mod-lt v (two_pow-pos w) in
      elim (Bool-cases (is_floating kind)) [
        | inl e ↦ rw e (ordered_bits-lt w (mask w v) h small)
        | inr e ↦ elim (Bool-cases (is_signed kind)) [
          | inl e' ↦ rw (e, e') (flip-lt w (mask w v) h small)
          | inr e' ↦ rw (e, e') small
        ]
      ]

  output-Sound :
      (c : Chunk) (n i : ℕ) (p s : List ℕ)
      → 0 < c.width
      → i + n ≤ length p
      → (has_secondary c.mode ≡ true → i + n ≤ length s)
      → Sound (output floats c n i p s) (AreValues c.width n)
  unfolding output
  output-Sound c zero i p s w h k = Sound-ok [] (refl, tt)
  output-Sound c (suc n) i p s w h k =
      Sound-bind (index p i) _ (index-Sound _ p i (omega arith) (All-true p)) λ v u.
        Sound-bind (by_mode floats c.width c.mode v i s) _
          (by_mode-Sound c.width c.mode v i s (λ e. omega (arith, k e)))
          λ x u'.
            Sound-bind (output floats c n (i + 1) p s) _
              (output-Sound c n (i + 1) p s w (omega arith) (λ e. omega (arith, k e)))
              λ rest (len, all).
                Sound-ok (to_kind floats c.width c.kind x ∷ rest)
                  (omega arith, (to_kind-lt c.width c.kind x w, all))

  pub by_columns-Sound :
      (c : Chunk) (n : ℕ) (cs : List (List ℕ))
      → 0 < c.width
      → Suffice c.mode (length cs)
      → All (λ x. length x ≡ n) cs
      → Sound (by_columns floats c n cs) (AreValues c.width n)
  unfolding by_columns
  by_columns-Sound c n [] w (some_column, h) all = absurd (omega arith)
  by_columns-Sound c n (p ∷ []) w (some_column, h) (len, all) =
      output-Sound c n 0 p [] w (omega arith) (λ e. absurd (omega (arith, h e)))
  by_columns-Sound c n (p ∷ s ∷ rest) w h (len, (len', all)) =
      output-Sound c n 0 p s w (omega arith) (λ e. omega arith)
