-- ===== src/Scan/Reader/Read/Place.antt =====
-- Reading a column changes the caches of its cursor, and not its place.
use vortex_go.Base.{ℕ, ◌≡◌, refl, Option, none, some, arith}
use vortex_go.Outcome.{Result, ok, err, Action}
use vortex_go.Schema.{VortexType}
use vortex_go.Layout.{Layout, header}
use vortex_go.ArrayLib.{ArrayLib}
use vortex_go.Scan.Plan.{Piece}
use vortex_go.Scan.Reader.Read.{
  Cursor, read_column, cached_or_refill, loaded, keep, with_dictionary, store_dictionary,
  cached_or_decoded,
}

-- The cursor stands at the same place of the same plan.
pub record SamePlace {A : Type 0} (c c' : Cursor A) : Type 0 where
  pub same_plan : c'.plan ≡ c.plan
  pub same_index : c'.index ≡ c.index

module _ (lib : ArrayLib) {World : Type 0}
    (decode_layout : Layout → VortexType → Action World lib.Array) where
  store_dictionary-SamePlace :
      (r : Result lib.Array) (i : ℕ) (c : Cursor lib.Array)
      → SamePlace c (store_dictionary lib decode_layout r i c)
  unfolding store_dictionary
  store_dictionary-SamePlace (err e) i c = record { same_plan = refl; same_index = refl }
  store_dictionary-SamePlace (ok v) i c = record { same_plan = refl; same_index = refl }

  decoded-SamePlace :
      (o : Option lib.Array) (c : Cursor lib.Array) (d : Layout) (t : VortexType) (w : World)
      → SamePlace c (cached_or_decoded lib decode_layout o c d t w).1
  unfolding cached_or_decoded
  decoded-SamePlace none c d t w =
      store_dictionary-SamePlace (decode_layout d t w).0 (header d).address c
  decoded-SamePlace (some v) c d t w = record { same_plan = refl; same_index = refl }

  with_dictionary-SamePlace :
      (o : Option (Layout × VortexType)) (a : lib.Array) (c : Cursor lib.Array) (w : World)
      → SamePlace c (with_dictionary lib decode_layout o a c w).1
  unfolding with_dictionary
  with_dictionary-SamePlace none a c w = record {
    same_plan = ground arith;
    same_index = ground arith;
  }
  with_dictionary-SamePlace (some (d, t)) a c w = decoded-SamePlace _ c d t w

  loaded-SamePlace :
      (r : Result lib.Array) (c : Cursor lib.Array) (p : Piece) (w : World)
      → SamePlace c (loaded lib decode_layout r c p w).1
  unfolding loaded
  loaded-SamePlace (err e) c p w = record { same_plan = refl; same_index = refl }
  loaded-SamePlace (ok a) c p w = with_dictionary-SamePlace p.dictionary a c w

  keep-SamePlace :
      (i : ℕ) (r : Result lib.Array) (c c' : Cursor lib.Array)
      → SamePlace c c'
      → SamePlace c (keep lib decode_layout i r c')
  unfolding keep
  keep-SamePlace i (err e) c c' h = h
  keep-SamePlace i (ok a) c c' h = record { same_plan = h.same_plan; same_index = h.same_index }

  module _ (decode_flat : Layout → VortexType → Action World lib.Array) where
    refill-SamePlace :
        (o : Option lib.Array) (c : Cursor lib.Array) (i : ℕ) (p : Piece) (w : World)
        → SamePlace c (cached_or_refill lib decode_layout decode_flat o c i p w).1
    unfolding cached_or_refill
    refill-SamePlace (some a) c i p w = record { same_plan = refl; same_index = refl }
    refill-SamePlace none c i p w =
        let s = loaded-SamePlace _ (record c { values = none }) p _ in
        keep-SamePlace i _ c _ (record { same_plan = s.same_plan; same_index = s.same_index })

    -- Reading a column leaves its cursor at the same place, whatever is cached or fails.
    pub read_column-SamePlace :
        (c : Cursor lib.Array) (i : ℕ) (p : Piece) (start end : ℕ) (w : World)
        → SamePlace c (read_column lib decode_layout decode_flat c i p start end w).1
    unfolding read_column
    read_column-SamePlace c i p start end w = refill-SamePlace _ c i p w
