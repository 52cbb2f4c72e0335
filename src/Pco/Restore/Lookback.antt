-- ===== src/Pco/Restore/Lookback.antt =====
-- Deltas against an earlier value: `restore` undoes the subtraction, for every choice of lookbacks.
use vortex_go.Base.{
  ℕ, zero, suc, ◌+◌, ◌-◌, ◌%◌, ◌^◌, ◌≤◌, ◌<◌, ◌≡◌, sym, ap, ◌∙◌, false, ◌||◌, List, [], ◌∷◌, ◌++◌,
  append_assoc, append-nil, All, All-append, get_or, length, ltb, leb, ◌==◌, if◌then◌else◌, arith,
}
use vortex_go.Base.Powers.{two_pow-pos}
use vortex_go.Outcome.{ok}
use vortex_go.Encoding.Word.{word}
use vortex_go.Pco.Words.{mask, flip}
use vortex_go.Pco.Words.Bounds.{flip-flip, minus, minus-lt, add-minus}
use vortex_go.Pco.Restore.{look_back}

-- The value that a lookback names behind some values, or 0 before the first one.
abbrev pub earlier : List ℕ → ℕ → ℕ
earlier out back = if leb back (length out) then get_or out (length out - back) 0 else 0

-- The deltas of xs behind the values of `out`, with the top bit flipped, for lookbacks that are chosen.
abbrev pub look_deltas : (w : ℕ) → (out look xs : List ℕ) → List ℕ
look_deltas w out [] xs = []
look_deltas w out (b ∷ look) [] = []
look_deltas w out (b ∷ look) (x ∷ xs) =
    flip w (minus w x (earlier out b)) ∷ look_deltas w (out ++ x ∷ []) look xs

get_or-lt : (w : ℕ) (xs : List ℕ) (i : ℕ) → All (λ x. x < 2 ^ w) xs → get_or xs i 0 < 2 ^ w
get_or-lt w [] i all = two_pow-pos w
get_or-lt w (x ∷ xs) zero (lt, all) = lt
get_or-lt w (x ∷ xs) (suc i) (lt, all) = get_or-lt w xs i all

earlier-lt : (w : ℕ) (out : List ℕ) (b : ℕ) → All (λ x. x < 2 ^ w) out → earlier out b < 2 ^ w
earlier-lt w out b all =
    let known = get_or-lt w out (length out - b) all in let pos = two_pow-pos w in ground arith

-- Values behind others, in the window's reach of their lookbacks, are restored from their deltas.
pub look_back-look_deltas :
    (w window : ℕ) (out look xs : List ℕ)
    → 0 < w
    → w ≤ 64
    → length look ≡ length xs
    → All (λ b. (0 < b) × (b ≤ window)) look
    → All (λ x. x < 2 ^ w) out
    → All (λ x. x < 2 ^ w) xs
    → look_back w window (look_deltas w out look xs) look out ≡ ok (out ++ xs)
unfolding look_back
look_back-look_deltas w window out [] [] pos h same near all all' = ap ok (sym (append-nil out))
look_back-look_deltas w window out [] (x ∷ xs) pos h same near all all' = absurd (omega arith)
look_back-look_deltas w window out (b ∷ look) [] pos h same near all all' = absurd (omega arith)
look_back-look_deltas w window out (b ∷ look) (x ∷ xs) pos h same ((b0, bw), near) all (lt, all') =
    let prev : ℕ = earlier out b in
    let valid : (b == 0 || ltb window b) ≡ false = ground arith in
    let undo : flip w (flip w (minus w x prev)) ≡ minus w x prev =
      flip-flip w (minus w x prev) pos (minus-lt w x prev) in
    let value : mask w ((prev + flip w (flip w (minus w x prev))) % word) ≡ x =
      ap (λ (k : ℕ). mask w ((prev + k) % word)) undo
      ∙ add-minus w x prev h lt (earlier-lt w out b all) in
    rw (valid, value)
      (look_back-look_deltas w window (out ++ x ∷ []) look xs pos h (omega arith) near
          (All-append (λ y. y < 2 ^ w) out (x ∷ []) all (lt, tt)) all'
        ∙ ap ok (append_assoc out (x ∷ []) xs))
