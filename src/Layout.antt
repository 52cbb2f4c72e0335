-- ===== src/Layout.antt =====
-- The layout tree of file.go (`layout`). The identifier is looked up in the file's registry and
-- only ever compared with the names below.
use vortex_go.Base.{ℕ, zero, suc, String, Option, none, some, List}

pub data LayoutId : Type 0 where
  struct chunked flat zoned stats dict : LayoutId
  other : String → LayoutId

pub record Header : Type 0 where
  -- which allocation the pointer names: `columnCursor.read` compares pointers
  pub address : ℕ
  pub rows : ℕ
  pub metadata : List ℕ
  pub segments : List ℕ

mutual
  pub data Layout : Type 0 where
    layout : LayoutId → Header → Layouts → Layout

  pub data Layouts : Type 0 where
    nil : Layouts
    cons : Layout → Layouts → Layouts

abbrev pub header : Layout → Header
header (layout i h cs) = h

abbrev pub rows : Layout → ℕ
rows l = (header l).rows

abbrev pub children : Layout → Layouts
children (layout i h cs) = cs

abbrev pub count : Layouts → ℕ
count nil = 0
count (cons c cs) = suc (count cs)

-- l.children[i]
abbrev pub child : Layouts → ℕ → Option Layout
child nil i = none
child (cons c cs) zero = some c
child (cons c cs) (suc i) = child cs i
