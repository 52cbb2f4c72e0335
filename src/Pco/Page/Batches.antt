-- ===== src/Pco/Page/Batches.antt =====
-- The batches of a page: in the end every latent variable has all of its values.
use vortex_go.Base.{
  ℕ, zero, suc, ◌+◌, ◌-◌, ◌*◌, ◌≤◌, min, ◌≡◌, ap, Bool, List, [], ◌∷◌, arith, subst,
}
use vortex_go.Outcome.Always.{Always, Always-pure, Always-imp, Always-bind}
use vortex_go.Pco.Reader.{align, stop_on_error}
use vortex_go.Pco.Reader.Total.{stop-Always, align-Always}
use vortex_go.Pco.Latent.{Latent}
use vortex_go.Pco.Mode.{Delta, order}
use vortex_go.Pco.Page.{
  PageVar, start_vars, read_latents, limit, read_vars, read_batches, batch_count, read_page,
}
use vortex_go.Pco.Page.Filled.{
  Shape, AreLatents, Holds, Holds-eq, total, AreHeld, start_vars-Always, read_latents-Always,
}

-- What a batch adds is what is left of a variable's values, up to 256.
limit-total :
    (delta : Delta) (n start i : ℕ) (v : Latent)
    → limit delta n start i v ≡ min 256 (total delta n i v.delta - start)
limit-total delta n start i v = ground arith

limit-Holds :
    (delta : Delta) (n start i : ℕ) (s : Shape) (v : Latent)
    → v.delta ≡ s.deltas
    → min start (total delta n i s.deltas) + limit delta n start i v
      ≡ min (start + 256) (total delta n i s.deltas)
limit-Holds delta n start i s v e =
    let l : limit delta n start i v ≡ min 256 (total delta n i v.delta - start) =
      limit-total delta n start i v in
    let t : total delta n i v.delta ≡ total delta n i s.deltas = ap (total delta n i) e in
    omega arith

read_vars-Always :
    (delta : Delta) (n start i : ℕ) (ss : List Shape) (ps : List PageVar)
    → AreHeld delta n start i ss ps
    → Always (read_vars delta n start i ps) (AreHeld delta n (start + 256) i ss)
unfolding read_vars
read_vars-Always delta n start i [] [] h = Always-pure [] tt
read_vars-Always delta n start i [] (p ∷ ps) h = absurd h
read_vars-Always delta n start i (s ∷ ss) [] h = absurd h
read_vars-Always delta n start i (s ∷ ss) (p ∷ ps) (h, hs) =
    Always-bind (read_latents (limit delta n start i p.latent) p) _
      (read_latents-Always (order delta) (limit delta n start i p.latent)
        (min start (total delta n i s.deltas)) s p h)
      λ q held.
        Always-bind (read_vars delta n start (i + 1) ps) _
          (read_vars-Always delta n start (i + 1) ss ps hs)
          λ qs all.
            Always-pure (q ∷ qs)
              (Holds-eq held (limit-Holds delta n start i s p.latent h.latent.deltas), all)

read_batches-Always :
    (delta : Delta) (n k start : ℕ) (ss : List Shape) (ps : List PageVar)
    → AreHeld delta n start 0 ss ps
    → Always (read_batches delta n k start ps) (AreHeld delta n (start + k * 256) 0 ss)
unfolding read_batches
read_batches-Always delta n zero start ss ps h =
    let e : start ≡ start + 0 * 256 = omega arith in
    Always-pure ps (subst (λ t. AreHeld delta n t 0 ss ps) e h)
read_batches-Always delta n (suc k) start ss ps h =
    Always-bind (read_vars delta n start 0 ps) _ (read_vars-Always delta n start 0 ss ps h)
      λ qs all.
        let e : start + 256 + k * 256 ≡ start + suc k * 256 = omega arith in
        subst (λ t. Always (read_batches delta n k (start + 256) qs) (AreHeld delta n t 0 ss)) e
          (read_batches-Always delta n k (start + 256) ss qs all)

-- The variables from i on, with all of their values.
abbrev pub AreFull : Delta → (n i : ℕ) → List Shape → List PageVar → Type 0
AreFull delta n i [] [] = Unit {0}
AreFull delta n i [] (p ∷ ps) = ⊥
AreFull delta n i (s ∷ ss) [] = ⊥
AreFull delta n i (s ∷ ss) (p ∷ ps) =
    Holds (order delta) (total delta n i s.deltas) s p × AreFull delta n (i + 1) ss ps

total-le : (delta : Delta) (n i : ℕ) (b : Bool) → total delta n i b ≤ n
total-le delta n i b = ground arith

held-full :
    (delta : Delta) (n start i : ℕ) (ss : List Shape) (ps : List PageVar)
    → n ≤ start
    → AreHeld delta n start i ss ps
    → AreFull delta n i ss ps
held-full delta n start i [] [] le h = tt
held-full delta n start i [] (p ∷ ps) le h = h
held-full delta n start i (s ∷ ss) [] le h = h
held-full delta n start i (s ∷ ss) (p ∷ ps) le (h, hs) = (
  Holds-eq h (omega (arith, total-le delta n i s.deltas)),
  held-full delta n start (i + 1) ss ps le hs,
)

-- A page of n values, read without an error: each variable that holds deltas, and the lookbacks, have n
-- values less the order, the others n. No state leaves its table, and nothing panics.
pub read_page-AreFull :
    (delta : Delta) (vars : List Latent) (n : ℕ) (ss : List Shape)
    → AreLatents ss vars
    → Always (read_page delta vars n) (AreFull delta n 0 ss)
unfolding read_page
read_page-AreFull delta vars n ss h =
    Always-bind (start_vars (order delta) vars) _ (start_vars-Always delta n 0 ss vars h) λ ps held.
      Always-bind align _ align-Always λ u t. Always-bind stop_on_error _ stop-Always λ u' t'.
        Always-imp _ (read_batches-Always delta n (batch_count n) 0 ss ps held)
          (λ qs all. held-full delta n (0 + batch_count n * 256) 0 ss qs (omega arith) all)
