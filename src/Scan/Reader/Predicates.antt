-- ===== src/Scan/Reader/Predicates.antt =====
-- The loops of Next over the zones of a column and over the predicates.
use vortex_go.Base.{
  ℕ, zero, suc, ◌<◌, ◌≡◌, ◌⊎◌, inl, inr, refl, ap, subst, ◌∙◌, List, [], ◌∷◌, All, set, get_or,
}
use vortex_go.Outcome.{Result, ok, err, Action, ok-injective}
use vortex_go.Schema.{VortexType}
use vortex_go.Layout.{Layout}
use vortex_go.ArrayLib.{ArrayLib}
use vortex_go.Zone.{ZoneRef}
use vortex_go.Zone.Evaluate.{Predicate, Table}
use vortex_go.Zone.Evaluate.Sound.{Values}
use vortex_go.Scan.Plan.{ColumnPlan, empty_plan}
use vortex_go.Scan.Reader.{plan_at, visit, visit_zones, visit_predicates, with_zones}
use vortex_go.Scan.Reader.Visit.{
  GoodZone, Narrowed, Fails, Narrowed-same, Narrowed-trans, Narrowed-map, visit-GoodZone,
  visit-Narrowed,
}

get_or-set {ℓ} :
    {A : Type ℓ} (xs : List A) (i j : ℕ) (v d : A)
    → (get_or (set xs i v) j d ≡ get_or xs j d) ⊎ ((i ≡ j) × (get_or (set xs i v) j d ≡ v))
get_or-set [] i j v d = inl refl
get_or-set (x ∷ xs) zero zero v d = inr (refl, refl)
get_or-set (x ∷ xs) zero (suc j) v d = inl refl
get_or-set (x ∷ xs) (suc i) zero v d = inl refl
get_or-set (x ∷ xs) (suc i) (suc j) v d = elim (get_or-set xs i j v d) [
  | inl e ↦ inl e
  | inr (e, k) ↦ inr (ap suc e, k)
]

module _ (lib : ArrayLib) {World : Type 0}
    (decode_layout : Layout → VortexType → Action World lib.Array) (n : ℕ) where
  abbrev Good : Values → ZoneRef (Table lib) → Type 0
  Good vs z = GoodZone lib decode_layout n vs z

  zones-GoodZone :
      (vs : Values) (zs : List (ZoneRef (Table lib))) (pos : ℕ) (p : Predicate) (end skip : ℕ)
      (w : World)
      → All (Good vs) zs
      → All (Good vs) (visit_zones lib decode_layout zs pos p end skip w).1
  unfolding visit_zones
  zones-GoodZone vs [] pos p end skip w g = tt
  zones-GoodZone vs (z ∷ zs) pos p end skip w (g, gs) =
      step (visit lib decode_layout z pos p end skip w).0 refl
        (λ e s w'. zones-GoodZone vs zs pos p e s w' gs)
    where
      first : Good vs (visit lib decode_layout z pos p end skip w).1
      first = visit-GoodZone lib decode_layout n vs z pos p end skip w g

      step :
          (r : Result (ℕ × ℕ))
          → (visit lib decode_layout z pos p end skip w).0 ≡ r
          → ((e s : ℕ) (w' : World)
              → All (Good vs) (visit_zones lib decode_layout zs pos p e s w').1)
          → All (Good vs) (visit_zones lib decode_layout (z ∷ zs) pos p end skip w).1
      step (err e) q ih = rw (q, visit_zones) (first, gs)
      step (ok (e, s)) q ih = rw (q, visit_zones) (first, ih e s _)

  abbrev Narrows : (ℕ → Type 0) → (pos end skip end' skip' : ℕ) → Type 0
  Narrows = Narrowed lib decode_layout n

  abbrev Failing : Values → Predicate → ℕ → Type 0
  Failing = Fails lib decode_layout n

  either : (P : ℕ → Type 0) (r : ℕ) → P r ⊎ P r → P r
  either P r (inl x) = x
  either P r (inr x) = x

  zones-Narrowed :
      (vs : Values) (zs : List (ZoneRef (Table lib))) (pos : ℕ) (p : Predicate) (end skip : ℕ)
      (w : World) (e s : ℕ)
      → (visit_zones lib decode_layout zs pos p end skip w).0 ≡ ok (e, s)
      → All (Good vs) zs
      → pos < end
      → Narrows (Failing vs p) pos end skip e s
  unfolding visit_zones
  zones-Narrowed vs [] pos p end skip w e s h g lt =
      subst (λ (x : ℕ × ℕ). Narrows (Failing vs p) pos end skip x.0 x.1) (ok-injective h)
        (Narrowed-same lib decode_layout n (Failing vs p) pos end skip lt)
  zones-Narrowed vs (z ∷ zs) pos p end skip w e s h (g, gs) lt =
      step (visit lib decode_layout z pos p end skip w).0 refl
        (λ e' s' w' k lt'. zones-Narrowed vs zs pos p e' s' w' e s k gs lt')
    where
      step :
          (r : Result (ℕ × ℕ))
          → (visit lib decode_layout z pos p end skip w).0 ≡ r
          → ((e' s' : ℕ) (w' : World)
              → (visit_zones lib decode_layout zs pos p e' s' w').0 ≡ ok (e, s)
              → pos < e'
              → Narrows (Failing vs p) pos e' s' e s)
          → Narrows (Failing vs p) pos end skip e s
      step (err c) q ih = cc (rw (q, visit_zones) at h)
      step (ok (e', s')) q ih =
          let a = visit-Narrowed lib decode_layout n vs z pos p end skip w e' s' q g lt in
          let b = ih e' s' _ (rw (q, visit_zones) at h) a.ahead in
          Narrowed-map lib decode_layout n _ (Failing vs p) pos end skip e s (either (Failing vs p))
            (Narrowed-trans lib decode_layout n (Failing vs p) (Failing vs p) pos end skip e' s' e s
              a b)

  -- The columns' values, by plan.
  module _ (columns : ℕ → Values) where
    -- Row `r` fails one of the predicates.
    abbrev pub AnyFails : List (Predicate × ℕ) → ℕ → Type 0
    AnyFails [] r = ⊥
    AnyFails ((p, i) ∷ ps) r = Failing (columns i) p r ⊎ AnyFails ps r

    abbrev pub GoodPlans : List (ColumnPlan (Table lib)) → Type 0
    GoodPlans plans = (i : ℕ) → All (Good (columns i)) (plan_at plans i).zones

    set-GoodPlans :
        (plans : List (ColumnPlan (Table lib))) (i : ℕ) (zs : List (ZoneRef (Table lib)))
        → GoodPlans plans
        → All (Good (columns i)) zs
        → GoodPlans (set plans i (with_zones lib (plan_at plans i) zs))
    unfolding plan_at
    set-GoodPlans plans i zs g h j =
        elim (get_or-set plans i j (with_zones lib (get_or plans i empty_plan) zs) empty_plan) [
          | inl e ↦ rw e (g j)
          | inr (e, k) ↦ rw k (subst (λ x. All (Good (columns x)) zs) e h)
        ]

    set-pieces :
        (plans : List (ColumnPlan (Table lib))) (i j : ℕ) (zs : List (ZoneRef (Table lib)))
        → (plan_at (set plans i (with_zones lib (plan_at plans i) zs)) j).pieces
          ≡ (plan_at plans j).pieces
    unfolding plan_at
    set-pieces plans i j zs =
        elim (get_or-set plans i j (with_zones lib (get_or plans i empty_plan) zs) empty_plan) [
          | inl e ↦ rw e
          | inr (e, k) ↦ rw (k, e)
        ]

    -- What the plans are after the loop, and what the answer means.
    pub record Visited (ps : List (Predicate × ℕ)) (plans : List (ColumnPlan (Table lib)))
        (pos end skip : ℕ) (out : Result (ℕ × ℕ) × List (ColumnPlan (Table lib)) × World)
        : Type 0 where
      pub good : GoodPlans out.1
      pub same_pieces : (j : ℕ) → (plan_at out.1 j).pieces ≡ (plan_at plans j).pieces
      pub narrows : (e s : ℕ) → out.0 ≡ ok (e, s) → Narrows (AnyFails ps) pos end skip e s

    -- Asking the predicates in turn, whatever the answers, leaves the plans good and with their
    -- pieces; an answer narrows the batch and skips only rows that fail one of the predicates.
    pub visit_predicates-Visited :
        (ps : List (Predicate × ℕ)) (plans : List (ColumnPlan (Table lib))) (pos end skip : ℕ)
        (w : World)
        → GoodPlans plans
        → pos < end
        → Visited ps plans pos end skip (visit_predicates lib decode_layout ps plans pos end skip w)
    unfolding visit_predicates
    visit_predicates-Visited [] plans pos end skip w g lt = record {
      good = g;
      same_pieces = λ j. refl;
      narrows = λ e s h.
          subst (λ (x : ℕ × ℕ). Narrows (AnyFails []) pos end skip x.0 x.1) (ok-injective h)
            (Narrowed-same lib decode_layout n (AnyFails []) pos end skip lt);
    }
    visit_predicates-Visited ((p, i) ∷ ps) plans pos end skip w g lt =
        step (visit_zones lib decode_layout (plan_at plans i).zones pos p end skip w).0 refl
          (λ plans' e s w' g' lt'. visit_predicates-Visited ps plans' pos e s w' g' lt')
      where
        zs : List (ZoneRef (Table lib))
        zs = (visit_zones lib decode_layout (plan_at plans i).zones pos p end skip w).1

        good_zs : All (Good (columns i)) zs
        good_zs = zones-GoodZone (columns i) (plan_at plans i).zones pos p end skip w (g i)

        plans' : List (ColumnPlan (Table lib))
        plans' = set plans i (with_zones lib (plan_at plans i) zs)

        step :
            (r : Result (ℕ × ℕ))
            → (visit_zones lib decode_layout (plan_at plans i).zones pos p end skip w).0 ≡ r
            → ((qs : List (ColumnPlan (Table lib))) (e s : ℕ) (w' : World)
                → GoodPlans qs
                → pos < e
                → Visited ps qs pos e s (visit_predicates lib decode_layout ps qs pos e s w'))
            → Visited
                ((p, i) ∷ ps)
                plans
                pos
                end
                skip
                (visit_predicates lib decode_layout ((p, i) ∷ ps) plans pos end skip w)
        step (err c) q ih =
            rw (q, visit_predicates)
              (record {
                good = set-GoodPlans plans i zs g good_zs;
                same_pieces = λ j. set-pieces plans i j zs;
                narrows = λ e s h. cc;
              })
        step (ok (e', s')) q ih =
            let a =
              zones-Narrowed (columns i) (plan_at plans i).zones pos p end skip w e' s' q (g i)
                lt in
            let b = ih plans' e' s' _ (set-GoodPlans plans i zs g good_zs) a.ahead in
            rw (q, visit_predicates)
              (record {
                good = b.good;
                same_pieces = λ j. b.same_pieces j ∙ set-pieces plans i j zs;
                narrows = λ e s h.
                    Narrowed-trans lib decode_layout n (Failing (columns i) p) (AnyFails ps) pos end
                      skip e' s' e s a (b.narrows e s h);
              })
