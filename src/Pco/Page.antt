-- ===== src/Pco/Page.antt =====
-- `chunk.page` and `readLatents` of internal/pco/decode.go: the latent variables of a page.
pub mod Nodes
pub mod Filled
pub mod Batches
use vortex_go.Base.{
  ℕ, zero, suc, ◌+◌, ◌-◌, ◌*◌, ◌/◌, ◌%◌, ◌^◌, min, Bool, true, false, not, ◌&&◌, ◌||◌, List, [],
  ◌∷◌, ◌++◌, map, set, length, ltb, leb, ◌==◌, if◌then◌else◌,
}
use vortex_go.Outcome.{Result, ok, err, failed, refuse, Action}
use vortex_go.Outcome.Act.{pure, raise, lift, ◌>>=◌, ◌>>◌}
use vortex_go.Encoding.Values.{index}
use vortex_go.Encoding.Word.{word}
use vortex_go.Pco.Words.{mask}
use vortex_go.Pco.Reader.{Reader, read, read_all, align, stop_on_error}
use vortex_go.Pco.Table.{Bin, AnsNode}
use vortex_go.Pco.Latent.{Latent}
use vortex_go.Pco.Mode.{Delta, order, is_lookback}

-- pageVar, with the latent variable that it belongs to
pub record PageVar : Type 0 where
  pub latent : Latent
  pub state : List ℕ
  pub ans : List ℕ
  pub values : List ℕ

-- The states at the start of the page.
unfoldable pub start_var : (order : ℕ) → Latent → Action Reader PageVar
unfolding read_all
start_var order v = do
  state ← read_all (if v.delta then order else 0) v.width
  ans ← read_all 4 v.log
  pure (record { latent = v; state = state; ans = ans; values = [] })

unfoldable pub start_vars : (order : ℕ) → List Latent → Action Reader (List PageVar)
unfolding start_var
start_vars order [] = pure []
start_vars order (v ∷ vs) = do p ← start_var order v; ps ← start_vars order vs; pure (p ∷ ps)

abbrev no_bins : List Bin → Bool
no_bins [] = true
no_bins (b ∷ bs) = false

-- The first loop of readLatents, from i on, with `n` values left: the entries of the table, and the
-- four states behind them.
unfoldable pub read_nodes :
    (n i : ℕ) → List AnsNode → List ℕ → Action Reader (List AnsNode × List ℕ)
unfolding read
read_nodes zero i table ans = pure ([], ans)
read_nodes (suc n) i table ans = do
  state ← lift (index ans (i % 4))
  lift (refuse (leb (length table) state) (failed "ANS state out of bounds"))
  a ← lift (index table state)
  x ← read a.read
  (rest, last) ← read_nodes n (i + 1) table (set ans (i % 4) (a.next + x))
  pure (a ∷ rest, last)

-- The second loop.
unfoldable pub read_offsets : (w : ℕ) → List AnsNode → Action Reader (List ℕ)
unfolding read
read_offsets w [] = pure []
read_offsets w (a ∷ rest) = do
  x ← read a.offset
  xs ← read_offsets w rest
  pure (mask w ((a.lower + x) % word) ∷ xs)

-- readLatents(r, v, p, n), and the append to p.values
unfoldable pub read_latents : (n : ℕ) → PageVar → Action Reader PageVar
unfolding read_nodes read_offsets stop_on_error
read_latents n p = do
  lift (refuse (ltb 0 n && no_bins p.latent.bins) (failed "no bins for nonempty data"))
  (nodes, ans) ← read_nodes n 0 p.latent.table p.ans
  xs ← read_offsets p.latent.width nodes
  stop_on_error
  pure (record p { ans = ans; values = p.values ++ xs })

-- How many values of variable i to read at `start`.
abbrev pub limit : (delta : Delta) → (n start i : ℕ) → Latent → ℕ
limit delta n start i v =
    if v.delta || is_lookback delta && i == 0
    then min 256 (n - start - order delta)
    else min 256 (n - start)

-- The loop over the variables, from i on.
unfoldable pub read_vars :
    (delta : Delta) → (n start i : ℕ) → List PageVar → Action Reader (List PageVar)
unfolding read_latents
read_vars delta n start i [] = pure []
read_vars delta n start i (p ∷ ps) = do
  q ← read_latents (limit delta n start i p.latent) p
  qs ← read_vars delta n start (i + 1) ps
  pure (q ∷ qs)

-- The loop over the batches of 256, of which `rounds` are left.
unfoldable pub read_batches :
    (delta : Delta) → (n rounds start : ℕ) → List PageVar → Action Reader (List PageVar)
unfolding read_vars
read_batches delta n zero start ps = pure ps
read_batches delta n (suc k) start ps = do
  qs ← read_vars delta n start 0 ps
  read_batches delta n k (start + 256) qs

-- for start := 0; start < n; start += 256
abbrev pub batch_count : ℕ → ℕ
batch_count n = (n + 255) / 256

-- The latent variables of a page, but for the end of the buffer.
unfoldable pub read_page : Delta → List Latent → (n : ℕ) → Action Reader (List PageVar)
unfolding start_vars align stop_on_error read_batches
read_page delta vars n = do
  ps ← start_vars (order delta) vars
  align
  stop_on_error
  read_batches delta n (batch_count n) 0 ps
