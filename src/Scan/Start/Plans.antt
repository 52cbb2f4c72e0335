-- ===== src/Scan/Start/Plans.antt =====
-- The map `plans` of `NewRecordReader` and its function `getPlan` (scan.go). A plan is named by its
-- position in the map's order of insertion.
use vortex_go.Base.{
  ℕ, suc, ◌≤◌, ◌<◌, ◌≡◌, refl, subst, String, Option, none, some, List, [], ◌∷◌, ◌++◌, length,
  arith, All, All-append, length-append, if◌then◌else◌, Option-cases, inl, inr, Bool-cases,
}
use vortex_go.Outcome.{Result, ok, err, failed, ◌>>=◌, >>=-eq-ok, ok-injective}
use vortex_go.Schema.{VortexType}
use vortex_go.Layout.{Layout, rows}
use vortex_go.Wire.{ProtoWire}
use vortex_go.Scan.Plan.{ColumnPlan, empty_plan, build_field_plan}
use vortex_go.Scan.Plan.Tiling.{Covers}
use vortex_go.Scan.Plan.Columns.{build_field_plan-Covers}
use text.Mathlib.Text.{◌==◌ as str_eq}

abbrev pub NamedPlans : Type 0 → Type 0
NamedPlans T = List (String × ColumnPlan T)

-- plans[name]
find_plan : {T : Type 0} → NamedPlans T → String → Option ℕ
find_plan [] name = none
find_plan ((s, p) ∷ ps) name =
    if str_eq s name
    then some 0
    else (elim (find_plan ps name) [ none ↦ none | some k ↦ some (suc k) ])

-- The one column of a name.
only_index : List ℕ → Result ℕ
only_index (i ∷ []) = ok i
only_index is = err (failed "unknown or ambiguous Vortex column")

module _ {T : Type 0} (w : ProtoWire) (root : Layout) (dtype : VortexType)
    (field_indices : String → List ℕ) where
  plan_for : NamedPlans T → String → ℕ → Option ℕ → Result (ℕ × ℕ × NamedPlans T)
  unfolding build_field_plan
  plan_for plans name i (some k) = ok (k, i, plans)
  plan_for plans name i none = do
    plan ← build_field_plan w root dtype i 0 empty_plan
    ok (length plans, i, plans ++ ((name, plan) ∷ []))

  -- getPlan(name): the plan's position, the column's index, and the map
  unfoldable pub get_plan : NamedPlans T → String → Result (ℕ × ℕ × NamedPlans T)
  unfolding find_plan only_index plan_for
  get_plan plans name = do
    i ← only_index (field_indices name)
    plan_for plans name i (find_plan plans name)

  -- Every plan of the map tiles the rows of the file, and its zones lie within them.
  abbrev pub AllCover : NamedPlans T → Type 0
  AllCover plans = All (λ p. Covers 0 (rows root) (rows root) p.1) plans

  -- After a call of getPlan: the plans cover the rows, none is lost, and the position is of one of them.
  pub record Got (plans : NamedPlans T) (k : ℕ) (plans' : NamedPlans T) : Type 0 where
    pub cover : AllCover plans'
    pub grows : length plans ≤ length plans'
    pub there : k < length plans'

find_plan-lt :
    {T : Type 0} (plans : NamedPlans T) (name : String) (k : ℕ)
    → find_plan plans name ≡ some k
    → k < length plans
unfolding find_plan
find_plan-lt [] name k h = cc
find_plan-lt ((s, p) ∷ ps) name k h = elim (Bool-cases (str_eq s name)) [
  | inl t ↦ found_first (length ps) k (rw t at h)
  | inr f ↦ elim (Option-cases (find_plan ps name)) [
    | inl e ↦ cc (rw (f, e) at h)
    | inr (j, e) ↦ found_later (length ps) j k (find_plan-lt ps name j e) (rw (f, e) at h)
  ]
]
  where
    found_first : (n k : ℕ) → some 0 ≡ some k → k < suc n
    found_first n k h = ground arith

    found_later : (n j k : ℕ) → j < n → some (suc j) ≡ some k → k < suc n
    found_later n j k lt h = ground arith

-- The answer of getPlan, by its parts.
module _ {T : Type 0} (w : ProtoWire) (root : Layout) (dtype : VortexType)
    (field_indices : String → List ℕ) where
  abbrev Answers : NamedPlans T → ℕ × ℕ × NamedPlans T → Type 0
  Answers plans (k, i, plans') = Got w root dtype field_indices plans k plans'

  plan_for-Got :
      (plans : NamedPlans T) (name : String) (i : ℕ) (o : Option ℕ) (out : ℕ × ℕ × NamedPlans T)
      → AllCover w root dtype field_indices plans
      → ((k : ℕ) → o ≡ some k → k < length plans)
      → plan_for w root dtype field_indices plans name i o ≡ ok out
      → Answers plans out
  unfolding plan_for
  plan_for-Got plans name i (some k) out t h e =
      subst (Answers plans) (ok-injective e)
        (record { cover = t; grows = omega arith; there = h k refl })
  plan_for-Got plans name i none out t h e =
      let (plan, p, e1) = >>=-eq-ok (build_field_plan w root dtype i 0 empty_plan) _ e in
      let longer = length-append plans ((name, plan) ∷ []) in
      let covers : Covers 0 (rows root) (rows root) plan =
        build_field_plan-Covers w root dtype i plan p in
      subst (Answers plans) (ok-injective e1) (record {
        cover = All-append _ plans ((name, plan) ∷ []) t (covers, tt);
        grows = omega (arith, longer);
        there = omega (arith, longer);
      })

  -- If every plan of the map covers the rows of the root, they still do after a call of getPlan that
  -- succeeds; the map has lost none; and the position returned is of one of them.
  pub get_plan-Got :
      (plans : NamedPlans T) (name : String) (k i : ℕ) (plans' : NamedPlans T)
      → AllCover w root dtype field_indices plans
      → get_plan w root dtype field_indices plans name ≡ ok (k, i, plans')
      → Got w root dtype field_indices plans k plans'
  unfolding get_plan
  get_plan-Got plans name k i plans' t e =
      let (j, p, e1) = >>=-eq-ok (only_index (field_indices name)) _ e in
      plan_for-Got plans name j (find_plan plans name) (k, i, plans') t (find_plan-lt plans name) e1
