-- ===== src/Pco/Page/Nodes.antt =====
-- The walk through the ANS table never leaves it.
use vortex_go.Base.{
  ℕ, zero, suc, ◌+◌, ◌%◌, ◌^◌, ◌<◌, ◌≡◌, refl, ◌∙◌, false, List, [], ◌∷◌, All, set, length,
  length-set, leb, arith,
}
use vortex_go.Outcome.{ok}
use vortex_go.Pco.Lists.{index-eq-ok, All-set}
use vortex_go.Pco.Reader.{Reader}
use vortex_go.Pco.Reader.Total.{read_total}
use vortex_go.Pco.Table.{AnsNode}
use vortex_go.Pco.Table.Lengths.{StaysBelow}
use vortex_go.Pco.Table.Below.{IsClosed}
use vortex_go.Pco.Page.{read_nodes}

-- Four states of a table.
abbrev pub States : (log : ℕ) → List ℕ → Type 0
States log ans = (length ans ≡ 4) × All (λ x. x < 2 ^ log) ans

-- On a closed table, from states in it, the loop gives an entry for each value, whatever bits it reads,
-- also past the end of the buffer: no state is out of bounds, before, between and after.
pub read_nodes_lem :
    (log n i : ℕ) (table : List AnsNode) (ans : List ℕ) (r : Reader)
    → IsClosed log table
    → States log ans
    → (nodes : List AnsNode) × (last : List ℕ) × (t : Reader) × (read_nodes n i table ans r
        ≡ (ok (nodes, last), t))
      × (length nodes ≡ n)
      × States log last
unfolding read_nodes
read_nodes_lem log zero i table ans r closed states = ([], ans, r, refl, refl, states)
read_nodes_lem log (suc n) i table ans r (size, all) (four, below) =
    let (state, e, lt) = index-eq-ok (λ x. x < 2 ^ log) ans (i % 4) (omega arith) below in
    let inside : leb (length table) state ≡ false = ground arith in
    let (a, e', stays) = index-eq-ok (StaysBelow (2 ^ log)) table state (omega arith) all in
    let (x, t, e'', small) = read_total a.read r in
    let (nodes, last, u, done, len, states) =
      read_nodes_lem log n (i + 1) table (set ans (i % 4) (a.next + x)) t (size, all)
        (
          length-set ans (i % 4) (a.next + x) ∙ four,
          All-set (λ y. y < 2 ^ log) ans (i % 4) (a.next + x) (omega arith) below,
        ) in
    (a ∷ nodes, last, u, rw (e, inside, e', e'', done) refl, omega arith, states)
