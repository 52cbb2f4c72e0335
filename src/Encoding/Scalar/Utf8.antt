-- ===== src/Encoding/Scalar/Utf8.antt =====
-- Go's `utf8.Valid`: well-formed UTF-8, without surrogates and overlong forms.
use vortex_go.Base.{ℕ, Bool, true, ◌&&◌, ◌||◌, List, [], ◌∷◌, ltb, leb, ◌==◌, if◌then◌else◌}

in_range : ℕ → ℕ → ℕ → Bool
in_range lo hi b = leb lo b && leb b hi

-- Where the accepted second byte of a sequence that `b` leads begins and ends.
second_lo : ℕ → ℕ
second_lo b = if b == 0xe0 then 0xa0 else if b == 0xf0 then 0x90 else 0x80

second_hi : ℕ → ℕ
second_hi b = if b == 0xed then 0x9f else if b == 0xf4 then 0x8f else 0xbf

tail_byte : ℕ → Bool
unfolding in_range
tail_byte b = in_range 0x80 0xbf b

-- How many bytes follow the lead byte; 4 for a byte that leads none.
followers : ℕ → ℕ
unfolding in_range
followers b =
    if ltb b 0x80
    then 0
    else if in_range 0xc2 0xdf b
    then 1
    else if in_range 0xe0 0xef b
    then 2
    else if in_range 0xf0 0xf4 b
    then 3
    else 4

-- One structural call a length of sequence: the bytes after it.
unfoldable pub utf8_valid : List ℕ → Bool
unfolding in_range second_lo second_hi tail_byte followers
utf8_valid [] = true
utf8_valid (a ∷ []) = followers a == 0
utf8_valid (a ∷ (b ∷ [])) =
    (followers a == 0 && followers b == 0)
    || (followers a == 1 && in_range (second_lo a) (second_hi a) b)
utf8_valid (a ∷ (b ∷ (c ∷ []))) =
    let two = in_range (second_lo a) (second_hi a) b in
    let after_one = utf8_valid (b ∷ (c ∷ [])) in
    let after_two = utf8_valid (c ∷ []) in
    if followers a == 0
    then after_one
    else (followers a == 1 && two && after_two) || (followers a == 2 && two && tail_byte c)
utf8_valid (a ∷ (b ∷ (c ∷ (d ∷ rest)))) =
    let two = in_range (second_lo a) (second_hi a) b in
    let after_one = utf8_valid (b ∷ (c ∷ (d ∷ rest))) in
    let after_two = utf8_valid (c ∷ (d ∷ rest)) in
    let after_three = utf8_valid (d ∷ rest) in
    let after_four = utf8_valid rest in
    if followers a == 0
    then after_one
    else if followers a == 1
    then (let r = after_two in two && r)
    else if followers a == 2
    then (let r = after_three in two && tail_byte c && r)
    else (let r = after_four in followers a == 3 && two && tail_byte c && tail_byte d && r)
