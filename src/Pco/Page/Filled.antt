-- ===== src/Pco/Page/Filled.antt =====
-- The latent variables of a page: what they hold when the page has been read.
use vortex_go.Base.{
  ℕ, ◌+◌, ◌-◌, ◌%◌, min, ◌≡◌, refl, ap, ◌∙◌, Bool, false, ◌&&◌, ◌||◌, List, [], ◌∷◌, ◌++◌, length,
  length-append, ltb, ◌==◌, if◌then◌else◌, arith,
}
use vortex_go.Outcome.{failed}
use vortex_go.Outcome.Sound.{Sound-ok, failed-ne-panic}
use vortex_go.Outcome.Always.{Always, Always-pure, Always-bind, Always-refuse}
use vortex_go.Encoding.Word.{word}
use vortex_go.Pco.Words.{mask}
use vortex_go.Pco.Reader.{read, read_all, stop_on_error}
use vortex_go.Pco.Reader.Total.{read-Always, read_all-Always, stop-Always}
use vortex_go.Pco.Table.{Bin, AnsNode}
use vortex_go.Pco.Latent.{Latent}
use vortex_go.Pco.Latent.Closed.{IsLatent, HasTable}
use vortex_go.Pco.Mode.{Delta, order, is_lookback}
use vortex_go.Pco.Page.{
  PageVar, start_var, start_vars, no_bins, read_nodes, read_offsets, read_latents,
}
use vortex_go.Pco.Page.Nodes.{States, read_nodes_lem}

-- What is known of a variable before its page is read: its width, and whether it holds deltas.
pub record Shape : Type 0 where
  pub wide : ℕ
  pub deltas : Bool

abbrev pub AreLatents : List Shape → List Latent → Type 0
AreLatents [] [] = Unit {0}
AreLatents [] (v ∷ vs) = ⊥
AreLatents (s ∷ ss) [] = ⊥
AreLatents (s ∷ ss) (v ∷ vs) = IsLatent s.wide s.deltas v × AreLatents ss vs

-- A variable of `order` states that has `count` values so far.
pub record Holds (order count : ℕ) (s : Shape) (p : PageVar) : Type 0 where
  pub latent : IsLatent s.wide s.deltas p.latent
  pub states : States p.latent.log p.ans
  pub state : length p.state ≡ (if s.deltas then order else 0)
  pub filled : length p.values ≡ count

-- How many values variable i has in the end.
abbrev pub total : Delta → (n i : ℕ) → Bool → ℕ
total delta n i deltas = if deltas || is_lookback delta && i == 0 then n - order delta else n

-- The variables from i on, when the values before `start` have been read.
abbrev pub AreHeld : Delta → (n start i : ℕ) → List Shape → List PageVar → Type 0
AreHeld delta n start i [] [] = Unit {0}
AreHeld delta n start i [] (p ∷ ps) = ⊥
AreHeld delta n start i (s ∷ ss) [] = ⊥
AreHeld delta n start i (s ∷ ss) (p ∷ ps) =
    Holds (order delta) (min start (total delta n i s.deltas)) s p
    × AreHeld delta n start (i + 1) ss ps

start_var-Always :
    (order : ℕ) (s : Shape) (v : Latent)
    → IsLatent s.wide s.deltas v
    → Always (start_var order v) (Holds order 0 s)
unfolding start_var
start_var-Always order s v h =
    Always-bind (read_all (if v.delta then order else 0) v.width) _ (read_all-Always _ v.width)
      λ state (len, all).
        Always-bind (read_all 4 v.log) _ (read_all-Always 4 v.log) λ ans (four, below).
          Always-pure (record { latent = v; state = state; ans = ans; values = [] })
            (record {
              latent = h;
              states = (four, below);
              state = len ∙ ap (λ (b : Bool). if b then order else 0) h.deltas;
              filled = refl;
            })

pub Holds-eq :
    {order c d : ℕ} {s : Shape} {p : PageVar} → Holds order c s p → c ≡ d → Holds order d s p
Holds-eq h e = record {
  latent = h.latent;
  states = h.states;
  state = h.state;
  filled = h.filled ∙ e;
}

pub start_vars-Always :
    (delta : Delta) (n i : ℕ) (ss : List Shape) (vs : List Latent)
    → AreLatents ss vs
    → Always (start_vars (order delta) vs) (AreHeld delta n 0 i ss)
unfolding start_vars
start_vars-Always delta n i [] [] h = Always-pure [] tt
start_vars-Always delta n i [] (v ∷ vs) h = absurd h
start_vars-Always delta n i (s ∷ ss) [] h = absurd h
start_vars-Always delta n i (s ∷ ss) (v ∷ vs) (h, hs) =
    Always-bind (start_var (order delta) v) _ (start_var-Always (order delta) s v h) λ p held.
      Always-bind (start_vars (order delta) vs) _ (start_vars-Always delta n (i + 1) ss vs hs)
        λ ps all. Always-pure (p ∷ ps) (Holds-eq held (omega arith), all)

nodes-Always :
    (log n : ℕ) (bins : List Bin) (table : List AnsNode) (ans : List ℕ)
    → (ltb 0 n && no_bins bins) ≡ false
    → HasTable log bins table
    → States log ans
    → Always (read_nodes n 0 table ans) (λ q. (length q.0 ≡ n) × States log q.1)
nodes-Always log n [] table ans some_bins closed states =
    let none_left : n ≡ 0 = ground arith in
    rw none_left (unfold read_nodes in Always-pure ([], ans) (refl, states))
nodes-Always log n (b ∷ bins) table ans some_bins closed states = record {
  each = λ r.
      let (nodes, last, t, e, len, after) = read_nodes_lem log n 0 table ans r closed states in
      rw e (Sound-ok (nodes, last) (len, after));
}

read_offsets-Always :
    (w : ℕ) (nodes : List AnsNode) → Always (read_offsets w nodes) (λ xs. length xs ≡ length nodes)
unfolding read_offsets
read_offsets-Always w [] = Always-pure [] refl
read_offsets-Always w (a ∷ nodes) = Always-bind (read a.offset) _ (read-Always a.offset) λ x lt.
    Always-bind (read_offsets w nodes) _ (read_offsets-Always w nodes)
      λ xs len. Always-pure (mask w ((a.lower + x) % word) ∷ xs) (omega arith)

pub read_latents-Always :
    (order n count : ℕ) (s : Shape) (p : PageVar)
    → Holds order count s p
    → Always (read_latents n p) (Holds order (count + n) s)
unfolding read_latents
read_latents-Always order n count s p held =
    Always-refuse (ltb 0 n && no_bins p.latent.bins) (failed _) _ (failed-ne-panic _) λ some_bins.
      Always-bind (read_nodes n 0 p.latent.table p.ans) _
        (nodes-Always p.latent.log n p.latent.bins p.latent.table p.ans some_bins held.latent.closed
          held.states)
        λ (nodes, ans) (len, states).
          Always-bind (read_offsets p.latent.width nodes) _ (read_offsets-Always _ nodes) λ xs len'.
            Always-bind stop_on_error _ stop-Always λ u t.
              Always-pure (record p { ans = ans; values = p.values ++ xs })
                (record {
                  latent = held.latent;
                  states = states;
                  state = held.state;
                  filled = length-append p.values xs ∙ omega (arith, held.filled, len, len');
                })
