-- ===== src/Pco/Latent.antt =====
-- `parseLatent` of internal/pco/decode.go: the bins of a latent variable and its ANS table.
pub mod Closed
use vortex_go.Base.{
  ℕ, zero, suc, ◌+◌, ◌-◌, ◌*◌, ◌/◌, ◌%◌, ◌^◌, Bool, true, false, not, ◌&&◌, ◌||◌, List, [], ◌∷◌,
  map, set, replicate, length, ltb, leb, ◌==◌, if◌then◌else◌,
}
use vortex_go.Outcome.{failed, refuse, Action}
use vortex_go.Outcome.Act.{pure, lift, ◌>>=◌, ◌>>◌}
use vortex_go.Pco.Reader.{Reader, read, stop_on_error}
use vortex_go.Pco.Table.{Bin, AnsNode, bits_len, table_of}

pub record Latent : Type 0 where
  pub width : ℕ
  pub log : ℕ
  pub bins : List Bin
  pub table : List AnsNode
  pub delta : Bool

-- The loop over the bins, of which `n` are left.
unfoldable pub parse_bins : (n log w : ℕ) → Action Reader (List Bin)
unfolding read bits_len
parse_bins zero log w = pure []
parse_bins (suc n) log w = do
  weight ← read log
  lower ← read w
  offset ← read (bits_len 64 w)
  lift (refuse (ltb w offset) (failed "invalid offset width"))
  rest ← parse_bins n log w
  pure (record { weight = 1 + weight; offset = offset; lower = lower } ∷ rest)

abbrev pub with_table : (w log : ℕ) → List Bin → List AnsNode → Bool → Latent
with_table w log bins table delta = record {
  width = w;
  log = log;
  bins = bins;
  table = table;
  delta = delta;
}

-- parseLatent(r, w, delta)
unfoldable pub parse_latent : (w : ℕ) → (delta : Bool) → Action Reader Latent
unfolding read stop_on_error parse_bins table_of
parse_latent w delta = do
  log ← read 4
  n ← read 15
  stop_on_error
  lift (
      refuse (ltb 14 log || ltb (2 ^ log) n || leb n 1 && not (log == 0))
        (failed "invalid ANS size"))
  bins ← parse_bins n log w
  stop_on_error
  table ← lift (table_of log bins)
  pure (with_table w log bins table delta)
