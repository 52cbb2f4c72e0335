-- ===== src/Scan/Reader/Read.antt =====
-- `columnCursor.read` and `release` of scan.go, with the caches of the decoded piece and of the
-- dictionary.
pub mod Place
use vortex_go.Base.{
  ℕ, ◌-◌, Bool, true, false, Option, none, some, List, get_elem?, ◌==◌, if◌then◌else◌,
}
use vortex_go.Outcome.{Result, ok, err, invalid, Action, map_ok, ◌>>=◌}
use vortex_go.Schema.{VortexType}
use vortex_go.Layout.{Layout, header}
use vortex_go.ArrayLib.{ArrayLib}
use vortex_go.Scan.Plan.{Piece}
use vortex_go.Scan.Auxiliary.{take_dictionary}

-- `columnCursor`. `plan` names the shared plan. `cached` is the piece by its index in the plan, and
-- `dictionary` the layout by its address.
pub record Cursor (A : Type 0) : Type 0 where
  pub plan : ℕ
  pub index : ℕ
  pub cached : Option ℕ
  pub values : Option A
  pub dictionary : Option ℕ
  pub dict_values : Option A

pub release_cursor : {A : Type 0} → Cursor A → Cursor A
release_cursor c = record c { cached = none; values = none; dictionary = none; dict_values = none }

same_pointer : Option ℕ → ℕ → Bool
same_pointer none i = false
same_pointer (some j) i = j == i

-- A column's array, the cursor and the world after it.
abbrev pub Outcome : Type 0 → Type 0 → Type 0
Outcome A W = Result A × Cursor A × W

-- The cached array where the test holds.
hit : {A : Type 0} → Bool → Option A → Option A
hit true o = o
hit false o = none

module _ (lib : ArrayLib) where
  open lib use {Array, as_struct, slice}

  -- The field of a flat struct array.
  select : Option ℕ → Array → Result Array
  select none a = ok a
  select (some k) a = elim (as_struct a) [
    | none ↦ err (invalid "expected struct array")
    | some fs ↦ elim (get_elem? fs k) [
      | none ↦ err (invalid "expected struct array")
      | some v ↦ ok v
    ]
  ]

  drop_dictionary : Cursor Array → Cursor Array
  drop_dictionary c = elim c.dict_values [
    | none ↦ c
    | some d ↦ record c { dict_values = none; dictionary = none }
  ]

  module _ {World : Type 0} (decode_layout : Layout → VortexType → Action World Array) where
    store_dictionary : Result Array → ℕ → Cursor Array → Cursor Array
    store_dictionary (err e) address c = record c { dict_values = none }
    store_dictionary (ok v) address c = record c { dict_values = some v; dictionary = some address }

    cached_or_decoded :
        Option Array → Cursor Array → Layout → VortexType → World → Outcome Array World
    unfolding store_dictionary
    cached_or_decoded (some v) c d t w = (ok v, c, w)
    cached_or_decoded none c d t w =
        let (r, w') = decode_layout d t w in (r, store_dictionary r (header d).address c, w')

    -- The dictionary's values, from the cache where it is the same layout.
    dictionary_of : Cursor Array → Layout → VortexType → World → Outcome Array World
    unfolding hit same_pointer cached_or_decoded
    dictionary_of c d t w =
        cached_or_decoded (hit (same_pointer c.dictionary (header d).address) c.dict_values) c d t w

    with_dictionary :
        Option (Layout × VortexType) → Array → Cursor Array → World → Outcome Array World
    unfolding drop_dictionary dictionary_of
    with_dictionary none a c w = (ok a, drop_dictionary c, w)
    with_dictionary (some (d, t)) codes c w =
        let (r, c', w') = dictionary_of c d t w in
        (r >>= λ v. take_dictionary lib v codes t, c', w')

    loaded : Result Array → Cursor Array → Piece → World → Outcome Array World
    unfolding with_dictionary
    loaded (err e) c p w = (err e, c, w)
    loaded (ok a) c p w = with_dictionary p.dictionary a c w

    -- The values of a piece that is not cached.
    load :
        (decode_flat : Layout → VortexType → Action World Array)
        → Cursor Array
        → Piece
        → World
        → Outcome Array World
    unfolding select loaded
    load decode_flat c p w =
        let (r, w') = decode_flat p.node p.dtype w in loaded (r >>= select p.field) c p w'

    -- Only what was decoded is cached.
    keep : ℕ → Result Array → Cursor Array → Cursor Array
    keep i (err e) c = c
    keep i (ok a) c = record c { values = some a; cached = some i }

    refill :
        (decode_flat : Layout → VortexType → Action World Array)
        → Cursor Array
        → ℕ
        → Piece
        → World
        → Outcome Array World
    unfolding load keep
    refill decode_flat c i p w =
        let (r, c', w') = load decode_flat (record c { values = none }) p w in (r, keep i r c', w')

    cached_or_refill :
        (decode_flat : Layout → VortexType → Action World Array)
        → Option Array
        → Cursor Array
        → ℕ
        → Piece
        → World
        → Outcome Array World
    unfolding refill
    cached_or_refill decode_flat (some a) c i p w = (ok a, c, w)
    cached_or_refill decode_flat none c i p w = refill decode_flat c i p w

    -- c.read(ctx, f, p, start, end), where `p` is piece `i` of the cursor's plan
    unfoldable pub read_column :
        (decode_flat : Layout → VortexType → Action World Array)
        → Cursor Array
        → ℕ
        → Piece
        → (start end : ℕ) → World
        → Outcome Array World
    unfolding same_pointer hit cached_or_refill
    read_column decode_flat c i p start end w =
        let (r, c', w') =
          cached_or_refill decode_flat (hit (same_pointer c.cached i) c.values) c i p w in
        (map_ok (λ a. slice a (start - p.start) (end - p.start)) r, c', w')
