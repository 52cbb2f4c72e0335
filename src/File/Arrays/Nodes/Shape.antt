-- ===== src/File/Arrays/Nodes/Shape.antt =====
-- The trees that `parseNode` makes: their size, their depth, and their buffers.
use vortex_go.Base.{
  ℕ, zero, suc, ◌+◌, ◌≤◌, ◌≡◌, refl, ap, subst, String, List, [], ◌∷◌, ◌++◌, All, All-append, some,
  get_elem?, length, leb, max, arith,
}
use vortex_go.Outcome.{Result, ok, Action, ok-injective}
use vortex_go.Outcome.Ensures.{
  Ensures, Ensures-pure, Ensures-raise, Ensures-bind, Ensures-bind-lift, Ensures-bind-refuse,
}
use vortex_go.Encoding.Values.{Node, Nodes, node, nil, cons, index}
use vortex_go.File.Tables.{Tables, NodeView}
use vortex_go.File.Limits.{check_count, node_budget}
use vortex_go.File.Arrays.Nodes.{encoding_of, pick_buffers, parse_children, parse_body, parse_node}

abbrev mutual
  pub node_count : Node → ℕ
  node_count (node e m bs cs) = suc (nodes_count cs)

  nodes_count : Nodes → ℕ
  nodes_count nil = 0
  nodes_count (cons c cs) = node_count c + nodes_count cs

abbrev mutual
  pub node_depth : Node → ℕ
  node_depth (node e m bs cs) = suc (nodes_depth cs)

  nodes_depth : Nodes → ℕ
  nodes_depth nil = 0
  nodes_depth (cons c cs) = max (node_depth c) (nodes_depth cs)

abbrev mutual
  -- Every buffer of the tree.
  pub node_buffers : Node → List (List ℕ)
  node_buffers (node e m bs cs) = bs ++ nodes_buffers cs

  nodes_buffers : Nodes → List (List ℕ)
  nodes_buffers nil = []
  nodes_buffers (cons c cs) = node_buffers c ++ nodes_buffers cs

-- One of the buffers.
abbrev pub IsOneOf : List (List ℕ) → List ℕ → Type 0
IsOneOf buffers b = (k : ℕ) × (get_elem? buffers k ≡ some b)

index-ok : {A : Type 0} (xs : List A) (i : ℕ) (x : A) → index xs i ≡ ok x → get_elem? xs i ≡ some x
index-ok [] i x h = cc
index-ok (y ∷ xs) zero x h = ap some (ok-injective h)
index-ok (y ∷ xs) (suc i) x h = index-ok xs i x h

spent : (budget : ℕ) → Ensures node_budget budget (λ u left. suc left ≡ budget)
unfolding node_budget
spent zero = record { at = λ a e. cc }
spent (suc b) = record { at = λ a e. ground arith }

pick_buffers-IsOneOf :
    (n i : ℕ) (buffer : ℕ → Result ℕ) (buffers : List (List ℕ)) (hi : ℕ)
    → Ensures (pick_buffers n i buffer buffers) hi (λ bs lo. (lo ≡ hi) × All (IsOneOf buffers) bs)
unfolding pick_buffers
pick_buffers-IsOneOf zero i buffer buffers hi = Ensures-pure [] hi (refl, tt)
pick_buffers-IsOneOf (suc n) i buffer buffers hi = Ensures-bind-lift (buffer i) _ hi λ k e.
    Ensures-bind-refuse (leb (length buffers) k) _ _ hi λ small.
      Ensures-bind-lift (index buffers k) _ hi λ b e1.
        Ensures-bind (pick_buffers n (i + 1) buffer buffers) _ hi
          (pick_buffers-IsOneOf n (i + 1) buffer buffers hi)
          λ rest lo (same, all).
            Ensures-pure (b ∷ rest) lo (same, ((k, index-ok buffers k b e1), all))

module _ (tables : Tables) (arrays : List String) (buffers : List (List ℕ)) where
  open tables use {NodeTable, node_view}

  abbrev Good : (levels : ℕ) → (hi : ℕ) → Node → (lo : ℕ) → Type 0
  Good levels hi n lo =
      (node_count n + lo ≡ hi) × (node_depth n ≤ levels) × All (IsOneOf buffers) (node_buffers n)

  abbrev AllGood : (levels : ℕ) → (hi : ℕ) → Nodes → (lo : ℕ) → Type 0
  AllGood levels hi ns lo =
      (nodes_count ns + lo ≡ hi)
      × (nodes_depth ns ≤ levels)
      × All (IsOneOf buffers) (nodes_buffers ns)

  children-Good :
      (levels : ℕ) (parse : NodeTable → Action ℕ Node) (child : ℕ → Result NodeTable) (n i hi : ℕ)
      → ((v : NodeTable) (h : ℕ) → Ensures (parse v) h (Good levels h))
      → Ensures (parse_children tables arrays buffers parse child n i) hi (AllGood levels hi)
  unfolding parse_children
  children-Good levels parse child zero i hi good =
      Ensures-pure nil hi (omega arith, omega arith, tt)
  children-Good levels parse child (suc n) i hi good = Ensures-bind-lift (child i) _ hi λ v e.
      Ensures-bind (parse v) _ hi (good v hi) λ c mid (count, deep, one).
        Ensures-bind (parse_children tables arrays buffers parse child n (i + 1)) _ mid
          (children-Good levels parse child n (i + 1) mid good)
          λ cs lo (count', deep', one'). Ensures-pure (cons c cs) lo (
            omega arith,
            omega arith,
            All-append (IsOneOf buffers) (node_buffers c) (nodes_buffers cs) one one',
          )

  body-Good :
      (levels : ℕ) (parse : NodeTable → Action ℕ Node) (v : NodeView NodeTable) (hi : ℕ)
      → ((u : NodeTable) (h : ℕ) → Ensures (parse u) h (Good levels h))
      → Ensures (parse_body tables arrays buffers parse v) hi (Good (suc levels) (suc hi))
  unfolding parse_body
  body-Good levels parse v hi good =
      Ensures-bind-refuse (leb (length arrays) v.encoding) _ _ hi λ known.
        Ensures-bind-lift (check_count v.children v.bytes 4) _ hi λ u1 e1.
          Ensures-bind-lift (check_count v.buffers v.bytes 2) _ hi λ u2 e2.
            Ensures-bind-lift (index arrays v.encoding) _ hi λ e e3.
              Ensures-bind (pick_buffers v.buffers 0 v.buffer buffers) _ hi
                (pick_buffers-IsOneOf v.buffers 0 v.buffer buffers hi)
                λ bs mid (same, one).
                  Ensures-bind (parse_children tables arrays buffers parse v.child v.children 0) _
                    mid (children-Good levels parse v.child v.children 0 mid good)
                    λ cs lo (count, deep, one').
                      Ensures-pure (node (encoding_of e) v.metadata bs cs) lo (
                        omega arith,
                        omega arith,
                        All-append (IsOneOf buffers) bs (nodes_buffers cs) one one',
                      )

  node-Good :
      (levels : ℕ) (v : NodeTable) (hi : ℕ)
      → Ensures (parse_node tables arrays buffers levels v) hi (Good levels hi)
  unfolding parse_node
  node-Good zero v hi = Ensures-raise _ hi
  node-Good (suc levels) v hi = Ensures-bind node_budget _ hi (spent hi) λ u mid e.
      Ensures-bind-lift (node_view v) _ mid λ view e1.
        subst
          (λ h.
            Ensures
              (parse_body tables arrays buffers (parse_node tables arrays buffers levels) view) mid
              (Good (suc levels) h))
          e (body-Good levels (parse_node tables arrays buffers levels) view mid (node-Good levels))

  -- Where parseNode returns a tree, having `budget` nodes to spend and `levels` levels to open, the
  -- tree has as many nodes as the budget lost and is at most `levels` deep, and every buffer in it is
  -- one of the array's.
  pub parse_node-IsOneOf :
      (levels budget : ℕ) (v : NodeTable) (n : Node)
      → (parse_node tables arrays buffers levels v budget).0 ≡ ok n
      → (node_count n + (parse_node tables arrays buffers levels v budget).1 ≡ budget)
        × (node_depth n ≤ levels)
        × All (IsOneOf buffers) (node_buffers n)
  parse_node-IsOneOf levels budget v n h = (node-Good levels v budget).at n h
