-- ===== src/Pco/Latent/Closed.antt =====
-- What `parseLatent` returns: the table of a latent variable is closed under the steps of the decoder.
use vortex_go.Base.{
  ℕ, zero, suc, ◌+◌, ◌^◌, ◌<◌, ◌≡◌, refl, Bool, not, ◌&&◌, ◌||◌, List, [], ◌∷◌, All, ltb, leb, ◌==◌,
  arith,
}
use vortex_go.Outcome.{failed}
use vortex_go.Outcome.Sound.{Sound, Sound-ok, failed-ne-panic}
use vortex_go.Outcome.Always.{Always, Always-pure, Always-lift, Always-bind, Always-refuse}
use vortex_go.Outcome.Act.{lift}
use vortex_go.Pco.Reader.{read, stop_on_error}
use vortex_go.Pco.Reader.Total.{read-Always, stop-Always}
use vortex_go.Pco.Table.{Bin, AnsNode, bits_len, table_of}
use vortex_go.Pco.Table.Below.{IsClosed, table_of-IsClosed}
use vortex_go.Pco.Latent.{Latent, with_table, parse_bins, parse_latent}

-- The table that the bins have: none without bins.
abbrev pub HasTable : (log : ℕ) → List Bin → List AnsNode → Type 0
HasTable log [] table = Unit {0}
HasTable log (b ∷ bins) table = IsClosed log table

-- A latent variable of width w, with deltas or not, whose table is closed.
pub record IsLatent (w : ℕ) (delta : Bool) (v : Latent) : Type 0 where
  pub wide : v.width ≡ w
  pub deltas : v.delta ≡ delta
  pub closed : HasTable v.log v.bins v.table

parse_bins-positive :
    (n log w : ℕ) → Always (parse_bins n log w) (λ bins. All (λ b. 0 < b.weight) bins)
unfolding parse_bins
parse_bins-positive zero log w = Always-pure [] tt
parse_bins-positive (suc n) log w = Always-bind (read log) _ (read-Always log) λ weight lt.
    Always-bind (read w) _ (read-Always w) λ lower lt'.
      Always-bind (read (bits_len 64 w)) _ (read-Always (bits_len 64 w)) λ offset lt''.
        Always-refuse (ltb w offset) (failed _) _ (failed-ne-panic _) λ fits.
          Always-bind (parse_bins n log w) _ (parse_bins-positive n log w) λ rest all.
            Always-pure (record { weight = 1 + weight; offset = offset; lower = lower } ∷ rest)
              (omega arith, all)

table_of-HasTable :
    (log : ℕ) (bins : List Bin)
    → log < 63
    → All (λ b. 0 < b.weight) bins
    → Sound (table_of log bins) (HasTable log bins)
table_of-HasTable log [] small pos = unfold table_of in Sound-ok [] tt
table_of-HasTable log (b ∷ bins) small pos = table_of-IsClosed log b bins small pos

-- What parseLatent returns is a latent variable of the width and the kind that were asked for; every
-- entry of its table leads into the table, whatever bits follow it. It does not panic, on any bytes.
pub parse_latent-IsLatent :
    (w : ℕ) (delta : Bool) → Always (parse_latent w delta) (IsLatent w delta)
unfolding parse_latent
parse_latent-IsLatent w delta = Always-bind (read 4) _ (read-Always 4) λ log lt.
    Always-bind (read 15) _ (read-Always 15) λ n lt'.
      Always-bind stop_on_error _ stop-Always λ u1 t1.
        Always-refuse (ltb 14 log || ltb (2 ^ log) n || leb n 1 && not (log == 0)) (failed _) _
          (failed-ne-panic _)
          λ small. Always-bind (parse_bins n log w) _ (parse_bins-positive n log w) λ bins pos.
            Always-bind stop_on_error _ stop-Always λ u2 t2.
              Always-bind (lift (table_of log bins)) _
                (Always-lift _ (table_of-HasTable log bins (omega arith) pos))
                λ table closed.
                  Always-pure (with_table w log bins table delta)
                    (record { wide = refl; deltas = refl; closed = closed })
