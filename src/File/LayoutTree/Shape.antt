-- ===== src/File/LayoutTree/Shape.antt =====
-- What a caller sees of the tree that `parseLayout` makes: its addresses, its depth, the segments.
use vortex_go.Base.{
  ℕ, zero, suc, ◌≤◌, ◌<◌, ◌≡◌, ap, ◌∙◌, List, [], ◌∷◌, ◌++◌, append_assoc, All, All-append, max,
  arith, length,
}
use vortex_go.Outcome.{ok}
use vortex_go.Layout.{Layout, Layouts, layout, nil, cons}
use vortex_go.File.Tables.{Tables}
use vortex_go.File.Registry.{Registry}
use vortex_go.File.LayoutTree.{parse_layout}
use vortex_go.File.LayoutTree.Parsed.{IsParsed, AreParsed, parse_layout-IsParsed}

-- n - 1, ..., 0
abbrev pub below : ℕ → List ℕ
below zero = []
below (suc n) = n ∷ below n

abbrev mutual
  -- The addresses of the nodes, each node before its children.
  pub addresses : Layout → List ℕ
  addresses (layout i h cs) = h.address ∷ child_addresses cs

  child_addresses : Layouts → List ℕ
  child_addresses nil = []
  child_addresses (cons c cs) = addresses c ++ child_addresses cs

abbrev mutual
  pub depth : Layout → ℕ
  depth (layout i h cs) = suc (child_depth cs)

  child_depth : Layouts → ℕ
  child_depth nil = 0
  child_depth (cons c cs) = max (depth c) (child_depth cs)

abbrev mutual
  -- Every segment that the tree names.
  pub all_segments : Layout → List ℕ
  all_segments (layout i h cs) = h.segments ++ child_segments cs

  child_segments : Layouts → List ℕ
  child_segments nil = []
  child_segments (cons c cs) = all_segments c ++ child_segments cs

mutual
  addresses_lem :
      (count levels lo hi : ℕ) (l : Layout)
      → IsParsed count levels lo hi l
      → addresses l ++ below lo ≡ below hi
  addresses_lem count zero lo hi (layout i h cs) p = elim p [ ]
  addresses_lem count (suc levels) lo hi (layout i h cs) (e, small, ss, p) =
      ap (λ xs. h.address ∷ xs) (child-addresses_lem count levels lo h.address cs p) ∙ ap below e

  child-addresses_lem :
      (count levels lo hi : ℕ) (ls : Layouts)
      → AreParsed count levels lo hi ls
      → child_addresses ls ++ below lo ≡ below hi
  child-addresses_lem count levels lo hi nil e = ap below e
  child-addresses_lem count levels lo hi (cons c cs) (mid, p, q) =
      append_assoc (addresses c) (child_addresses cs) (below lo)
      ∙ ap (λ xs. addresses c ++ xs) (child-addresses_lem count levels lo mid cs q)
      ∙ addresses_lem count levels mid hi c p

mutual
  depth-bound :
      (count levels lo hi : ℕ) (l : Layout) → IsParsed count levels lo hi l → depth l ≤ levels
  depth-bound count zero lo hi (layout i h cs) p = elim p [ ]
  depth-bound count (suc levels) lo hi (layout i h cs) (e, small, ss, p) =
      let b = child_depth-bound count levels lo h.address cs p in omega arith

  child_depth-bound :
      (count levels lo hi : ℕ) (ls : Layouts)
      → AreParsed count levels lo hi ls
      → child_depth ls ≤ levels
  child_depth-bound count levels lo hi nil e = omega arith
  child_depth-bound count levels lo hi (cons c cs) (mid, p, q) =
      let b = depth-bound count levels mid hi c p in
      let b' = child_depth-bound count levels lo mid cs q in omega arith

mutual
  segments-bound :
      (count levels lo hi : ℕ) (l : Layout)
      → IsParsed count levels lo hi l
      → All (λ s. s < count) (all_segments l)
  segments-bound count zero lo hi (layout i h cs) p = elim p [ ]
  segments-bound count (suc levels) lo hi (layout i h cs) (e, small, ss, p) =
      All-append _ h.segments (child_segments cs) ss
        (child_segments-bound count levels lo h.address cs p)

  child_segments-bound :
      (count levels lo hi : ℕ) (ls : Layouts)
      → AreParsed count levels lo hi ls
      → All (λ s. s < count) (child_segments ls)
  child_segments-bound count levels lo hi nil e = tt
  child_segments-bound count levels lo hi (cons c cs) (mid, p, q) =
      All-append _ (all_segments c) (child_segments cs) (segments-bound count levels mid hi c p)
        (child_segments-bound count levels lo mid cs q)

-- Where parseLayout returns a tree, having `budget` nodes to spend and `levels` levels to open, the
-- nodes took consecutive numbers of the budget from the top, a node before its children, so they
-- are as many as the budget lost and no two have the same address; the tree is at most `levels`
-- deep; and every segment that it names is in the registry.
pub parse_layout-bounds :
    (tables : Tables) (r : Registry) (levels budget : ℕ) (v : Tables.LayoutTable tables)
    (l : Layout)
    → (parse_layout tables r levels v budget).0 ≡ ok l
    → (addresses l ++ below (parse_layout tables r levels v budget).1 ≡ below budget)
      × (depth l ≤ levels)
      × All (λ s. s < length r.segments) (all_segments l)
parse_layout-bounds tables r levels budget v l h =
    let left = (parse_layout tables r levels v budget).1 in
    let p = (parse_layout-IsParsed tables r levels v budget).at l h in
    (
      addresses_lem (length r.segments) levels left budget l p,
      depth-bound (length r.segments) levels left budget l p,
      segments-bound (length r.segments) levels left budget l p,
    )
