-- ===== src/Zone/Evaluate/Steps.antt =====
-- `evaluate` on a zone whose table is loaded or not: what it answers, and what it leaves behind.
use vortex_go.Base.{
  ℕ, ◌+◌, ◌-◌, ◌*◌, ◌/◌, ◌≤◌, ◌<◌, ◌≡◌, refl, subst, Bool, true, false, Bool-cases, Option-cases,
  inl, inr, Option, none, some, List, arith, ◌==◌,
}
use vortex_go.Outcome.{Result, ok, err, is_cancellation, >>=-eq-ok, ok-injective}
use vortex_go.Layout.{rows}
use vortex_go.ArrayLib.{ArrayLib}
use vortex_go.Zone.{ZoneRef}
use vortex_go.Zone.Evaluate.{
  Predicate, Table, zone_end, zone_rows, judge, judge_loaded, give_up, accept, decoded,
}
use vortex_go.Zone.Evaluate.Sound.{Values, matches, Truthful, judge_sound}
use native.Mathlib.Nat.{div-add-mod, mod-lt}

pub some_path {ℓ} : {A : Type ℓ} {a b : A} → some a ≡ some b → a ≡ b
some_path e = cc

-- The end of a zone lies behind the row and within the layout's rows.
pub zone_end_bounds :
    {A : Type 0} (z : ZoneRef A) (pos : ℕ)
    → 0 < z.zone_len
    → pos < z.end
    → (pos < zone_end z pos) × (zone_end z pos ≤ z.end)
unfolding zone_end
zone_end_bounds z pos len below = omega (arith, mod-lt (pos - z.start) len)

module _ (lib : ArrayLib) where
  -- The rows up to the zone's end are rows of the entry that `evaluate` reads.
  zone_end-entry :
      (z : ZoneRef (Table lib)) (pos r : ℕ)
      → 0 < z.zone_len
      → z.start ≤ pos
      → pos ≤ r
      → r < zone_end z pos
      → (z.start + (pos - z.start) / z.zone_len * z.zone_len ≤ r)
        × (r
            < z.start
              + (pos - z.start) / z.zone_len * z.zone_len
              + zone_rows lib z ((pos - z.start) / z.zone_len))
  unfolding zone_end zone_rows
  zone_end-entry z pos r len a b c = omega (arith, div-add-mod (pos - z.start) z.zone_len)

  module _ (vs : Values) where
    -- Every entry of the table tells the truth about its rows of the column.
    abbrev pub TableTruth : ZoneRef (Table lib) → List lib.Array → Type 0
    TableTruth z fields =
        0 < z.zone_len
        → (idx : ℕ)
        → Truthful lib fields z.stats idx (z.start + idx * z.zone_len) (zone_rows lib z idx) vs

    judge_loaded_sound :
        (z : ZoneRef (Table lib)) (o : Option (Table lib)) (pos : ℕ) (p : Predicate) (e r : ℕ)
        → 0 < z.zone_len
        → z.start ≤ pos
        → ((t : Table lib) → o ≡ some t → TableTruth z t.1)
        → judge_loaded lib z o pos p ≡ ok (e, true)
        → pos ≤ r
        → r < e
        → matches p (vs r) ≡ false
    unfolding judge_loaded
    judge_loaded_sound z none pos p e r len at truth h a b = cc
    judge_loaded_sound z (some (table, fields)) pos p e r len at truth h a b =
        let idx = (pos - z.start) / z.zone_len in
        let (skip, j, k) =
          >>=-eq-ok (judge lib table fields z.stats idx (zone_rows lib z idx) p) _ h in
        let (lo, hi) = zone_end-entry z pos r len at a (ground (arith, k)) in
        judge_sound lib fields z.stats idx _ _ vs p (truth (table, fields) refl len idx) table r
          (ground (arith, j, k)) lo hi

  judge_loaded_bounds :
      (z : ZoneRef (Table lib)) (o : Option (Table lib)) (pos : ℕ) (p : Predicate) (e : ℕ)
      (skip : Bool)
      → judge_loaded lib z o pos p ≡ ok (e, skip)
      → e ≡ zone_end z pos
  unfolding judge_loaded
  judge_loaded_bounds z none pos p e skip h = ground arith
  judge_loaded_bounds z (some (table, fields)) pos p e skip h =
      let (s, j, k) = >>=-eq-ok (judge lib table fields z.stats _ (zone_rows lib z _) p) _ h in
      ground (arith, k)

  module _ (vs : Values) (z : ZoneRef (Table lib)) (pos : ℕ) (p : Predicate) where
    -- A good answer: the scan advances within the zone's rows, and skips no row that may match.
    pub record Answer (e : ℕ) (skip : Bool) : Type 0 where
      pub advances : pos < e
      pub inside : e ≤ z.end
      pub excludes : skip ≡ true → (r : ℕ) → pos ≤ r → r < e → matches p (vs r) ≡ false

    give_up-Answer :
        (e : ℕ) (skip : Bool) → (give_up lib z).0 ≡ ok (e, skip) → pos < z.end → Answer e skip
    unfolding give_up
    give_up-Answer e skip h below = record {
      advances = ground arith;
      inside = ground arith;
      excludes = λ t. cc (ok-injective h, t);
    }

    pub judge-Answer :
        (z' : ZoneRef (Table lib)) (o : Option (Table lib)) (e : ℕ) (skip : Bool)
        → judge_loaded lib z' o pos p ≡ ok (e, skip)
        → z'.end ≡ z.end
        → 0 < z'.zone_len
        → z'.start ≤ pos
        → pos < z.end
        → ((t : Table lib) → o ≡ some t → TableTruth vs z' t.1)
        → Answer e skip
    judge-Answer z' o e skip h same len at below truth =
        let eq : e ≡ zone_end z' pos = judge_loaded_bounds z' o pos p e skip h in
        record {
          advances = omega (arith, zone_end_bounds z' pos len (omega arith));
          inside = omega (arith, zone_end_bounds z' pos len (omega arith));
          excludes = λ t r a b. judge_loaded_sound vs z' o pos p e r len at truth (rw t at h) a b;
        }

    pub decoded-Answer :
        (r : Result lib.Array) (e : ℕ) (skip : Bool)
        → (decoded lib z pos p r).0 ≡ ok (e, skip)
        → 0 < z.zone_len
        → z.start ≤ pos
        → pos < z.end
        → ((a : lib.Array) (fields : List lib.Array)
            → r ≡ ok a
            → lib.as_struct a ≡ some fields
            → TableTruth vs z fields)
        → Answer e skip
    unfolding decoded accept
    decoded-Answer (err c) e skip h len at below truth = elim (Bool-cases (is_cancellation c)) [
      | inl t ↦ cc (rw t at h)
      | inr f ↦ give_up-Answer e skip (rw f at h) below
    ]
    decoded-Answer (ok a) e skip h len at below truth = elim (Option-cases (lib.as_struct a)) [
      | inl n ↦ give_up-Answer e skip (rw n at h) below
      | inr (fields, n) ↦ elim (Bool-cases (lib.len a == rows z.node)) [
        | inr f ↦ give_up-Answer e skip (rw (n, f) at h) below
        | inl t ↦
            judge-Answer _ (some (a, fields)) e skip (rw (n, t) at h) refl len at below (λ u q.
              subst (λ (v : Table lib). TableTruth vs z v.1) (some_path q) (truth a fields refl n))
      ]
    ]
