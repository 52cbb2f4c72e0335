-- ===== src/Pco/Output/Columns.antt =====
-- The columns of a page, restored from its latent variables: each has as many values as the page.
use vortex_go.Base.{
  ℕ, ◌+◌, ◌-◌, ◌≡◌, refl, ap, ◌∙◌, inl, inr, Bool, true, false, ◌&&◌, List, [], ◌∷◌, All, length,
  ◌==◌, if◌then◌else◌, arith, Bool-cases,
}
use vortex_go.Outcome.Sound.{Sound, Sound-ok, Sound-bind}
use vortex_go.Pco.Mode.{Delta, plain, consecutive, lookback, convolution, order, is_lookback}
use vortex_go.Pco.Page.{PageVar}
use vortex_go.Pco.Page.Filled.{Shape, Holds, total}
use vortex_go.Pco.Page.Batches.{AreFull}
use vortex_go.Pco.Restore.Lengths.{restore-Sound}
use vortex_go.Pco.Output.{restored, restored_all, columns}

-- The lookbacks of a page, where there are any.
abbrev HasLooks : Delta → (n : ℕ) → List ℕ → Type 0
HasLooks delta n look = is_lookback delta ≡ true → length look ≡ n - order delta

restored-Sound :
    (delta : Delta) (look : List ℕ) (n i : ℕ) (s : Shape) (p : PageVar)
    → HasLooks delta n look
    → (is_lookback delta && i == 0) ≡ false
    → Holds (order delta) (total delta n i s.deltas) s p
    → Sound (restored delta look n p) (λ xs. length xs ≡ n)
unfolding restored
restored-Sound delta look n i s p looks later h = elim (Bool-cases s.deltas) [
  | inl yes_deltas ↦
      let d : p.latent.delta ≡ true = h.latent.deltas ∙ yes_deltas in
      let t : total delta n i s.deltas ≡ n - order delta = ground arith in
      let k : length p.state ≡ order delta =
        h.state ∙ ap (λ (b : Bool). if b then order delta else 0) yes_deltas in
      rw d (restore-Sound delta p.values p.state look n p.latent.width (h.filled ∙ t) k looks)
  | inr no_deltas ↦
      let d : p.latent.delta ≡ false = h.latent.deltas ∙ no_deltas in
      let t : total delta n i s.deltas ≡ n = ground arith in rw d (Sound-ok p.values (h.filled ∙ t))
]

restored_all-Sound :
    (delta : Delta) (look : List ℕ) (n i : ℕ) (ss : List Shape) (ps : List PageVar)
    → HasLooks delta n look
    → (is_lookback delta && i == 0) ≡ false
    → AreFull delta n i ss ps
    → Sound
        (restored_all delta look n ps)
        (λ cs. (length cs ≡ length ss) × All (λ c. length c ≡ n) cs)
unfolding restored_all
restored_all-Sound delta look n i [] [] looks later h = Sound-ok [] (refl, tt)
restored_all-Sound delta look n i [] (p ∷ ps) looks later h = absurd h
restored_all-Sound delta look n i (s ∷ ss) [] looks later h = absurd h
restored_all-Sound delta look n i (s ∷ ss) (p ∷ ps) looks later (h, hs) =
    Sound-bind (restored delta look n p) _ (restored-Sound delta look n i s p looks later h)
      λ xs len.
        Sound-bind (restored_all delta look n ps) _
          (restored_all-Sound delta look n (i + 1) ss ps looks (ground arith) hs)
          λ rest (lens, all). Sound-ok (xs ∷ rest) (omega arith, (len, all))

-- The shapes of the variables behind the lookbacks.
abbrev pub inner : Delta → List Shape → List Shape
inner (lookback k w s) [] = []
inner (lookback k w s) (x ∷ ss) = ss
inner plain ss = ss
inner (consecutive k s) ss = ss
inner (convolution q b ws) ss = ss

-- The lookbacks hold no deltas themselves.
abbrev pub StartsWell : Delta → List Shape → Type 0
StartsWell (lookback k w s) [] = ⊥
StartsWell (lookback k w s) (x ∷ ss) = x.deltas ≡ false
StartsWell plain ss = Unit {0}
StartsWell (consecutive k s) ss = Unit {0}
StartsWell (convolution q b ws) ss = Unit {0}

pub columns-Sound :
    (delta : Delta) (n : ℕ) (ss : List Shape) (ps : List PageVar)
    → StartsWell delta ss
    → AreFull delta n 0 ss ps
    → Sound
        (columns delta n ps)
        (λ cs. (length cs ≡ length (inner delta ss)) × All (λ c. length c ≡ n) cs)
unfolding columns
columns-Sound (lookback k w s) n [] ps start h = absurd start
columns-Sound (lookback k w s) n (x ∷ ss) [] start h = absurd h
columns-Sound (lookback k w s) n (x ∷ ss) (p ∷ ps) start (h, hs) =
    restored_all-Sound (lookback k w s) p.values n 1 ss ps (λ e. h.filled ∙ rw start refl) refl hs
columns-Sound plain n ss ps start h = restored_all-Sound plain [] n 0 ss ps (λ e. cc) refl h
columns-Sound (consecutive k s) n ss ps start h =
    restored_all-Sound (consecutive k s) [] n 0 ss ps (λ e. cc) refl h
columns-Sound (convolution q b ws) n ss ps start h =
    restored_all-Sound (convolution q b ws) [] n 0 ss ps (λ e. cc) refl h
