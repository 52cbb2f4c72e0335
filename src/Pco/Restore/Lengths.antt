-- ===== src/Pco/Restore/Lengths.antt =====
-- `restore` gives as many values as the page has, and does not panic.
use vortex_go.Base.{
  ℕ, zero, suc, ◌+◌, ◌-◌, ◌*◌, ◌%◌, ◌≤◌, ◌<◌, min, ◌≡◌, refl, ◌∙◌, true, false, ◌||◌, List, [], ◌∷◌,
  ◌++◌, map, take, drop, length, length-append, ltb, ◌==◌, arith,
}
use vortex_go.Outcome.{failed}
use vortex_go.Outcome.Sound.{Sound, Sound-ok, Sound-bind, Sound-imp, Sound-refuse, failed-ne-panic}
use vortex_go.Encoding.Word.{word}
use vortex_go.Pco.Lists.{length-map, length-take, length-drop}
use vortex_go.Pco.Words.{mask, flip}
use vortex_go.Pco.Mode.{Delta, plain, consecutive, lookback, convolution, order, is_lookback}
use vortex_go.Pco.Restore.{integrate, integrate_all, copied, look_back, conv_sum, convolve, restore}

pub length-integrate : (w m : ℕ) (xs : List ℕ) → length (integrate w m xs) ≡ length xs
unfolding integrate
length-integrate w m [] = refl
length-integrate w m (d ∷ ds) = omega (arith, length-integrate w (mask w ((m + d) % word)) ds)

pub length-integrate_all :
    (w : ℕ) (state out : List ℕ) → length (integrate_all w state out) ≡ length out
unfolding integrate_all
length-integrate_all w [] out = refl
length-integrate_all w (m ∷ ms) out =
    length-integrate w m (integrate_all w ms out) ∙ length-integrate_all w ms out

pub length-copied : (n : ℕ) (raw : List ℕ) → length (copied n raw) ≡ n
unfolding copied
length-copied zero raw = refl
length-copied (suc n) [] = omega (arith, length-copied n [])
length-copied (suc n) (x ∷ raw) = omega (arith, length-copied n raw)

look_back-Sound :
    (w window : ℕ) (raw look out : List ℕ)
    → length raw ≤ length look
    → Sound (look_back w window raw look out) (λ xs. length xs ≡ length out + length raw)
unfolding look_back
look_back-Sound w window [] look out h = Sound-ok out (omega arith)
look_back-Sound w window (d ∷ raw) [] out h = absurd (omega arith)
look_back-Sound w window (d ∷ raw) (back ∷ look) out h =
    Sound-refuse (back == 0 || ltb window back) (failed _) _ (failed-ne-panic _) λ good.
      Sound-imp _ (look_back-Sound w window raw look (out ++ _ ∷ []) (omega arith))
        (λ xs e. omega (arith, length-append {0} out (_ ∷ [])))

conv_sum-Sound :
    (sum : ℕ) (weights values : List ℕ)
    → length weights ≤ length values
    → Sound (conv_sum sum weights values) (λ x. Unit {0})
unfolding conv_sum
conv_sum-Sound sum [] values h = Sound-ok sum tt
conv_sum-Sound sum (c ∷ cs) [] h = absurd (omega arith)
conv_sum-Sound sum (c ∷ cs) (v ∷ vs) h = conv_sum-Sound ((sum + v * c) % word) cs vs (omega arith)

convolve-Sound :
    (w quant bias : ℕ) (weights raw out : List ℕ)
    → (0 < length raw → length weights ≤ length out)
    → Sound (convolve w quant bias weights raw out) (λ xs. length xs ≡ length out + length raw)
unfolding convolve
convolve-Sound w quant bias weights [] out h = Sound-ok out (omega arith)
convolve-Sound w quant bias weights (d ∷ raw) out h =
    let enough : length weights ≤ length out = h (omega arith) in
    let known : ltb (length out) (length weights) ≡ false = ground arith in
    let behind : length (drop (length out - length weights) out) ≡ length weights =
      length-drop (length out - length weights) out ∙ omega arith in
    rw known (
      Sound-bind (conv_sum bias weights (drop (length out - length weights) out)) _
        (conv_sum-Sound bias weights _ (omega arith))
        λ sum u.
          Sound-imp _
            (convolve-Sound w quant bias weights raw (out ++ _ ∷ [])
              (λ p. omega (arith, length-append {0} out (_ ∷ []))))
            (λ xs e. omega (arith, length-append {0} out (_ ∷ []))))

-- The deltas of a page of n values are as many as the values behind the first ones, and a lookback is
-- there for each of them. Then n values are restored, and nothing panics.
pub restore-Sound :
    (delta : Delta) (raw state look : List ℕ) (n w : ℕ)
    → length raw ≡ n - order delta
    → length state ≡ order delta
    → (is_lookback delta ≡ true → length look ≡ n - order delta)
    → Sound (restore delta raw state look n w) (λ xs. length xs ≡ n)
unfolding restore
restore-Sound plain raw state look n w h k l = Sound-ok raw (omega arith)
restore-Sound (consecutive m s) raw state look n w h k l = Sound-ok _ (
    length-integrate_all w state (map (flip w) (copied n raw))
    ∙ length-map (flip w) (copied n raw)
    ∙ length-copied n raw)
restore-Sound (lookback m window s) raw state look n w h k l =
    let looks : length look ≡ n - m = l refl in
    let start : length (drop (length state - min n (length state)) state) ≡ min n (length state) =
      length-drop (length state - min n (length state)) state ∙ omega arith in
    Sound-imp _ (look_back-Sound w window raw look _ (omega arith)) (λ xs e. omega arith)
restore-Sound (convolution quant bias weights) raw state look n w h k l =
    let start : length (take (min n (length state)) state) ≡ min n (length state) =
      length-take (min n (length state)) state ∙ omega arith in
    Sound-imp _ (convolve-Sound w quant bias weights raw _ (λ p. omega arith)) (λ xs e. omega arith)
