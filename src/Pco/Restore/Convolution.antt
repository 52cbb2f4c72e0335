-- ===== src/Pco/Restore/Convolution.antt =====
-- Deltas against a weighted sum of the values before: `restore` undoes the subtraction.
use vortex_go.Base.{
  ℕ, ◌+◌, ◌-◌, ◌*◌, ◌/◌, ◌%◌, ◌^◌, ◌≤◌, ◌<◌, ◌≡◌, sym, ap, ◌∙◌, false, List, [], ◌∷◌, ◌++◌,
  append_assoc, append-nil, length-append, All, drop, length, ltb, arith,
}
use native.Mathlib.Nat.{mod-lt, mod-add-mod}
use vortex_go.Base.Powers.{two_pow-pos, mod-word-mod}
use vortex_go.Outcome.{ok}
use vortex_go.Encoding.Word.{word}
use vortex_go.Pco.Lists.{length-drop}
use vortex_go.Pco.Words.{mask, flip}
use vortex_go.Pco.Words.Bounds.{flip-flip, minus, minus-lt, add-minus}
use vortex_go.Pco.Restore.{at_least_zero, conv_sum, convolve}

-- The sum of the products of two lists.
abbrev pub dot : (weights values : List ℕ) → ℕ
dot [] values = 0
dot (c ∷ cs) [] = 0
dot (c ∷ cs) (v ∷ vs) = v * c + dot cs vs

-- What the last values of `out` predict.
abbrev pub predicted : (quant bias : ℕ) → (weights out : List ℕ) → ℕ
predicted quant bias weights out =
    at_least_zero ((bias + dot weights (drop (length out - length weights) out)) % word) / 2 ^ quant

-- The deltas of xs behind the values of `out`, with the top bit flipped.
abbrev pub conv_deltas : (w quant bias : ℕ) → (weights out xs : List ℕ) → List ℕ
conv_deltas w quant bias weights out [] = []
conv_deltas w quant bias weights out (x ∷ xs) =
    flip w (minus w x (predicted quant bias weights out % 2 ^ w))
    ∷ conv_deltas w quant bias weights (out ++ x ∷ []) xs

conv_sum_lem :
    (sum : ℕ) (weights values : List ℕ)
    → sum < word
    → length weights ≤ length values
    → conv_sum sum weights values ≡ ok ((sum + dot weights values) % word)
unfolding conv_sum
conv_sum_lem sum [] values h le = ap ok (omega arith)
conv_sum_lem sum (c ∷ cs) [] h le = absurd (omega arith)
conv_sum_lem sum (c ∷ cs) (v ∷ vs) h le =
    conv_sum_lem ((sum + v * c) % word) cs vs (omega arith) (omega arith) ∙ ap ok (omega arith)

-- Behind any prediction, its difference leads to the value.
add-minus_mod : (w x y : ℕ) → w ≤ 64 → x < 2 ^ w → mask w ((y + minus w x (y % 2 ^ w)) % word) ≡ x
add-minus_mod w x y h lt =
    let d : ℕ = minus w x (y % 2 ^ w) in
    mod-word-mod (y + d) w h
    ∙ sym (mod-add-mod y (2 ^ w) d)
    ∙ sym (mod-word-mod (y % 2 ^ w + d) w h)
    ∙ add-minus w x (y % 2 ^ w) h lt (mod-lt y (two_pow-pos w))

-- Values of w bits behind at least as many others as there are weights are restored from their
-- differences to what the weighted sum of the values before each of them predicts.
pub convolve-conv_deltas :
    (w quant bias : ℕ) (weights out xs : List ℕ)
    → 0 < w
    → w ≤ 64
    → bias < word
    → length weights ≤ length out
    → All (λ x. x < 2 ^ w) xs
    → convolve w quant bias weights (conv_deltas w quant bias weights out xs) out ≡ ok (out ++ xs)
unfolding convolve
convolve-conv_deltas w quant bias weights out [] pos h b le all = ap ok (sym (append-nil out))
convolve-conv_deltas w quant bias weights out (x ∷ xs) pos h b le (lt, all) =
    let y : ℕ = predicted quant bias weights out in
    let d : ℕ = minus w x (y % 2 ^ w) in
    let enough : ltb (length out) (length weights) ≡ false = ground arith in
    let left = length-drop (length out - length weights) out in
    let sum = conv_sum_lem bias weights (drop (length out - length weights) out) b (omega arith) in
    let undo : flip w (flip w d) ≡ d = flip-flip w d pos (minus-lt w x (y % 2 ^ w)) in
    let value : mask w ((y + flip w (flip w d)) % word) ≡ x =
      ap (λ (k : ℕ). mask w ((y + k) % word)) undo ∙ add-minus_mod w x y h lt in
    let more = length-append out (x ∷ []) in
    rw (enough, sum, value)
      (convolve-conv_deltas w quant bias weights (out ++ x ∷ []) xs pos h b (omega arith) all
        ∙ ap ok (append_assoc out (x ∷ []) xs))
