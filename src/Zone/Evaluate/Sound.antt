-- ===== src/Zone/Evaluate/Sound.antt =====
-- `evaluate` skips only rows that the predicate excludes, if the table tells the truth.
use vortex_go.Base.{
  ℕ, zero, suc, ◌+◌, ◌≤◌, ◌<◌, ◌≡◌, ◌≢◌, ◌⊎◌, ◌||◌, refl, Bool, true, false, Bool-cases,
  Option-cases, inl, inr, Option, none, some, List, arith, if◌then◌else◌,
}
use vortex_go.Base.Int.{ℤ, ◌≤ℤ◌, ltb_ℤ, leb_ℤ, eqb_ℤ}
use vortex_go.Outcome.{ok, >>=-eq-ok, ok-injective}
use vortex_go.ArrayLib.{ArrayLib}
use vortex_go.Zone.{Statistics}
use vortex_go.Zone.Evaluate.{
  Predicate, CompareOp, eq, neq, gt, gte, lt, lte, NullCheck, unreliable, all_null, known_non_null,
  null_check, excluded, by_bounds, column, null_count_at, bound_at, any_truncated, is_none, is_neq,
  after_nulls, by_columns, by_statistics, judge,
}

-- A column: the value of each row, `none` for a null.
abbrev pub Values : Type 0
Values = ℕ → Option ℤ

-- The comparison, on integers.
abbrev pub compares : CompareOp → ℤ → ℤ → Bool
compares eq v x = eqb_ℤ v x
compares neq v x = if eqb_ℤ v x then false else true
compares gt v x = ltb_ℤ x v
compares gte v x = leb_ℤ x v
compares lt v x = ltb_ℤ v x
compares lte v x = leb_ℤ v x

-- May a row satisfy the predicate? A null satisfies `!=` only.
abbrev pub matches : Predicate → Option ℤ → Bool
matches p (some v) = compares p.op v p.value
matches p none = elim p.op [ neq ↦ true | _ ↦ false ]

-- How many of the `n` rows from `first` on are null.
abbrev is_null_row : Option ℤ → ℕ
is_null_row none = 1
is_null_row (some v) = 0

pub count_nulls : Values → ℕ → ℕ → ℕ
count_nulls vs first zero = 0
count_nulls vs first (suc n) = is_null_row (vs first) + count_nulls vs (first + 1) n

count_nulls-le : (vs : Values) (first n : ℕ) → count_nulls vs first n ≤ n
unfolding count_nulls
count_nulls-le vs first zero = omega arith
count_nulls-le vs first (suc n) = ground (arith, count_nulls-le vs (first + 1) n)

all_null_rows :
    (vs : Values) (first n r : ℕ)
    → count_nulls vs first n ≡ n
    → first ≤ r
    → r < first + n
    → vs r ≡ none
unfolding count_nulls
all_null_rows vs first zero r h a b = absurd (omega arith)
all_null_rows vs first (suc n) r h a b =
    ground (arith, count_nulls-le vs (first + 1) n, all_null_rows vs (first + 1) n r)

no_null_rows :
    (vs : Values) (first n r : ℕ)
    → count_nulls vs first n ≡ 0
    → first ≤ r
    → r < first + n
    → vs r ≢ none
unfolding count_nulls
no_null_rows vs first zero r h a b = absurd (omega arith)
no_null_rows vs first (suc n) r h a b = ground (arith, no_null_rows vs (first + 1) n r)

-- A row between the bounds that the switch excludes does not satisfy the predicate.
excluded_sound :
    (p : Predicate) (non_null : Bool) (lo hi v : ℤ)
    → excluded p non_null lo hi ≡ true
    → lo ≤ℤ v
    → v ≤ℤ hi
    → compares p.op v p.value ≡ false
unfolding excluded
excluded_sound p non_null lo hi v h a b = ground arith

excluded-null :
    (p : Predicate) (non_null : Bool) (lo hi : ℤ)
    → excluded p non_null lo hi ≡ true
    → (non_null ≡ true) ⊎ (matches p none ≡ false)
unfolding excluded
excluded-null p non_null lo hi h = ground arith

by_bounds-some :
    (p : Predicate) (non_null : Bool) (a b : Option ℤ)
    → by_bounds p non_null a b ≡ true
    → (lo : ℤ) × (hi : ℤ) × (a ≡ some lo) × (b ≡ some hi) × (excluded p non_null lo hi ≡ true)
unfolding by_bounds
by_bounds-some p non_null none b h = cc
by_bounds-some p non_null (some lo) none h = cc
by_bounds-some p non_null (some lo) (some hi) h = (lo, hi, refl, refl, ground arith)

-- A null count that skips the zone is the number of its rows, and the operator is not `!=`.
all_null-nulls :
    (o : Option ℕ) (n : ℕ) (op : CompareOp)
    → null_check o n op ≡ all_null
    → ℕ × (o ≡ some n) × (is_neq op ≡ false)
unfolding null_check
all_null-nulls none n op h = cc
all_null-nulls (some k) n op h = (k, ground arith, ground arith)

non_null-nulls :
    (o : Option ℕ) (n : ℕ) (op : CompareOp) (b : Bool)
    → null_check o n op ≡ known_non_null b
    → b ≡ true
    → o ≡ some 0
unfolding null_check
non_null-nulls none n op b h t = cc
non_null-nulls (some k) n op b h t = ground arith

null-matches : (p : Predicate) → is_neq p.op ≡ false → matches p none ≡ false
unfolding is_neq
null-matches p h = ground arith

module _ (lib : ArrayLib) where
  open lib use {Array}

  -- Entry `idx` of the table describes the `n` rows from `first` on: its null count is their number
  -- of nulls, and its bounds are bounds of their values.
  pub record Truthful (fields : List Array) (s : Statistics) (idx first n : ℕ) (vs : Values)
      : Type 0 where
    pub nulls :
        (a : Option Array) (k : ℕ)
        → column lib fields s.null_field ≡ ok a
        → null_count_at lib a idx ≡ some k
        → count_nulls vs first n ≡ k
    pub lower :
        (a : Option Array) (lo v : ℤ) (r : ℕ)
        → column lib fields s.min_field ≡ ok a
        → bound_at lib a idx ≡ some lo
        → first ≤ r
        → r < first + n
        → vs r ≡ some v
        → lo ≤ℤ v
    pub upper :
        (a : Option Array) (hi v : ℤ) (r : ℕ)
        → column lib fields s.max_field ≡ ok a
        → bound_at lib a idx ≡ some hi
        → first ≤ r
        → r < first + n
        → vs r ≡ some v
        → v ≤ℤ hi

  module _ (fields : List Array) (s : Statistics) (idx first n : ℕ) (vs : Values) (p : Predicate)
      (truth : Truthful fields s idx first n vs) where
    by_columns_sound :
        (non_null : Bool) (r : ℕ)
        → by_columns lib fields s.min_field s.max_field idx p non_null ≡ ok true
        → (non_null ≡ true → vs r ≢ none)
        → first ≤ r
        → r < first + n
        → matches p (vs r) ≡ false
    unfolding by_columns
    by_columns_sound non_null r h nn a b =
        let (x, hx, h1) = >>=-eq-ok (column lib fields s.min_field) _ h in
        let (y, hy, h2) = >>=-eq-ok (column lib fields s.max_field) _ h1 in
        let (lo, hi, el, eh, ex) =
          by_bounds-some p non_null (bound_at lib x idx) (bound_at lib y idx) (ok-injective h2) in
        elim (Option-cases (vs r)) [
          | inl e ↦ ground (arith, excluded-null p non_null lo hi ex, nn)
          | inr (v, e) ↦ rw e (
              excluded_sound p non_null lo hi v ex (truth.lower x lo v r hx el a b e)
                (truth.upper y hi v r hy eh a b e))
        ]

    by_statistics_sound :
        (non_null : Bool) (r : ℕ)
        → by_statistics lib fields s idx p non_null ≡ ok true
        → (non_null ≡ true → vs r ≢ none)
        → first ≤ r
        → r < first + n
        → matches p (vs r) ≡ false
    unfolding by_statistics
    by_statistics_sound non_null r h nn a b =
        elim (Bool-cases (is_none s.min_field || is_none s.max_field)) [
          | inl e ↦ cc (rw e at h)
          | inr e ↦
              (let (t, u, k) = >>=-eq-ok (any_truncated lib fields s idx) _ (rw e at h) in
                elim (Bool-cases t) [
                  | inl f ↦ cc (rw f at k)
                  | inr f ↦ by_columns_sound non_null r (rw f at k) nn a b
                ])
        ]

    after_nulls_sound :
        (x : Option Array) (r : ℕ) (c : NullCheck)
        → column lib fields s.null_field ≡ ok x
        → null_check (null_count_at lib x idx) n p.op ≡ c
        → after_nulls lib fields s idx p c ≡ ok true
        → first ≤ r
        → r < first + n
        → matches p (vs r) ≡ false
    unfolding after_nulls
    after_nulls_sound x r unreliable hx e h a b = cc
    after_nulls_sound x r all_null hx e h a b =
        let (k, all, op) = all_null-nulls (null_count_at lib x idx) n p.op e in
        let none_left : vs r ≡ none = all_null_rows vs first n r (truth.nulls x n hx all) a b in
        rw none_left (null-matches p op)
    after_nulls_sound x r (known_non_null non_null) hx e h a b =
        by_statistics_sound non_null r h
          (λ t.
            no_null_rows vs first n r
              (truth.nulls x 0 hx (non_null-nulls (null_count_at lib x idx) n p.op non_null e t)) a
              b)
          a b

    -- `judge` excludes only rows that do not satisfy the predicate.
    pub judge_sound :
        (table : Array) (r : ℕ)
        → judge lib table fields s idx n p ≡ ok true
        → first ≤ r
        → r < first + n
        → matches p (vs r) ≡ false
    unfolding judge
    judge_sound table r h a b = elim (Bool-cases (lib.is_null table idx)) [
      | inl e ↦ cc (rw e at h)
      | inr e ↦
          (let (x, hx, k) = >>=-eq-ok (column lib fields s.null_field) _ (rw e at h) in
            after_nulls_sound x r _ hx refl k a b)
    ]
