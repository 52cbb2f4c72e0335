-- ===== src/Zone/Evaluate/Honest.antt =====
-- `evaluate` on a reference whose table, loaded or not, is honest: what it answers and leaves behind.
use vortex_go.Base.{
  ℕ, ◌≤◌, ◌<◌, ◌≡◌, refl, subst, Bool, true, Bool-cases, Option-cases, inl, inr, some, List, arith,
  ◌==◌,
}
use vortex_go.Outcome.{Result, ok, err, is_cancellation, Action}
use vortex_go.Schema.{VortexType}
use vortex_go.Layout.{Layout, rows}
use vortex_go.ArrayLib.{ArrayLib}
use vortex_go.Zone.{ZoneRef}
use vortex_go.Zone.Evaluate.{
  Predicate, Table, zone_rows, zone_end, give_up, accept, decoded, evaluate,
}
use vortex_go.Zone.Evaluate.Sound.{Values}
use vortex_go.Zone.Evaluate.Steps.{TableTruth, Answer, judge-Answer, decoded-Answer, some_path}

module _ (lib : ArrayLib) where
  module _ {World : Type 0} (decode_layout : Layout → VortexType → Action World lib.Array)
      (vs : Values) where
    -- What is loaded tells the truth, and so does whatever a load can return.
    pub record Honest (z : ZoneRef (Table lib)) : Type 0 where
      pub loaded_truth : (t : Table lib) → z.values ≡ some t → TableTruth lib vs z t.1
      pub source_truth :
          (w w' : World) (a : lib.Array) (fields : List lib.Array)
          → decode_layout z.node z.dtype w ≡ (ok a, w')
          → lib.as_struct a ≡ some fields
          → TableTruth lib vs z fields

    -- For an honest zone reference and a row of it, if `evaluate` answers, then whether it had to load
    -- the table or not, the end that it answers is after the row and within the reference's rows, and
    -- if it says to skip, then no row from there up to that end matches the predicate.
    pub evaluate_sound :
        (z : ZoneRef (Table lib)) (pos : ℕ) (p : Predicate) (w : World) (e : ℕ) (skip : Bool)
        → Honest z
        → z.start ≤ pos
        → pos < z.end
        → (evaluate lib decode_layout z pos p w).0 ≡ ok (e, skip)
        → Answer lib vs z pos p e skip
    unfolding evaluate zone_end
    evaluate_sound z pos p w e skip honest at below h = elim (Bool-cases (z.zone_len == 0)) [
      | inl t ↦ record {
        advances = ground (arith, rw t at h);
        inside = ground (arith, rw t at h);
        excludes = λ u. cc (rw t at h, u);
      }
      | inr f ↦ elim (Bool-cases z.loaded) [
        | inl t ↦
            judge-Answer lib vs z pos p z z.values e skip (rw (f, t) at h) refl (ground arith) at
              below honest.loaded_truth
        | inr n ↦
            decoded-Answer lib vs z pos p (decode_layout z.node z.dtype w).0 e skip (rw (f, n) at h)
              (ground arith) at below
              (λ a fields q k.
                honest.source_truth w _ a fields (λ i. (q i, (decode_layout z.node z.dtype w).1)) k)
      ]
    ]

    -- `z'` stands for the rows of `z`, and is as honest.
    pub record Keeps (z z' : ZoneRef (Table lib)) : Type 0 where
      pub same_start : z'.start ≡ z.start
      pub same_end : z'.end ≡ z.end
      pub honest : Honest z → Honest z'

    Keeps-self : (z : ZoneRef (Table lib)) → Keeps z z
    Keeps-self z = record { same_start = refl; same_end = refl; honest = λ h. h }

    Keeps-loaded : (z : ZoneRef (Table lib)) → Keeps z (record z { loaded = true })
    unfolding zone_rows
    Keeps-loaded z = record {
      same_start = refl;
      same_end = refl;
      honest = λ h. record { loaded_truth = h.loaded_truth; source_truth = h.source_truth };
    }

    Keeps-give_up : (z : ZoneRef (Table lib)) → Keeps z (give_up lib z).1
    unfolding give_up
    Keeps-give_up z = record {
      same_start = refl;
      same_end = refl;
      honest = λ h. record {
        loaded_truth = λ t q len. absurd (omega arith);
        source_truth = λ w w' a fields q k len. absurd (omega arith);
      };
    }

    Keeps-values :
        (z : ZoneRef (Table lib)) (a : lib.Array) (fields : List lib.Array)
        → (Honest z → TableTruth lib vs z fields)
        → Keeps z (record z { loaded = true; values = some (a, fields) })
    unfolding zone_rows
    Keeps-values z a fields truth = record {
      same_start = refl;
      same_end = refl;
      honest = λ h. record {
        loaded_truth =
            λ t q. subst (λ (v : Table lib). TableTruth lib vs z v.1) (some_path q) (truth h);
        source_truth = h.source_truth;
      };
    }

    decoded-Keeps :
        (z : ZoneRef (Table lib)) (pos : ℕ) (p : Predicate) (r : Result lib.Array)
        → ((a : lib.Array) (fields : List lib.Array)
            → r ≡ ok a
            → lib.as_struct a ≡ some fields
            → Honest z
            → TableTruth lib vs z fields)
        → Keeps z (decoded lib z pos p r).1
    unfolding decoded accept
    decoded-Keeps z pos p (err c) truth = elim (Bool-cases (is_cancellation c)) [
      | inl t ↦ rw t (Keeps-loaded z)
      | inr f ↦ rw f (Keeps-give_up z)
    ]
    decoded-Keeps z pos p (ok a) truth = elim (Option-cases (lib.as_struct a)) [
      | inl n ↦ rw n (Keeps-give_up z)
      | inr (fields, n) ↦ elim (Bool-cases (lib.len a == rows z.node)) [
        | inr f ↦ rw (n, f) (Keeps-give_up z)
        | inl t ↦ rw (n, t) (Keeps-values z a fields (truth a fields refl n))
      ]
    ]

    -- Whatever `evaluate` answers, an error too, the reference that it leaves has the same start and
    -- end, and is honest if the one that it was given is.
    pub evaluate-Keeps :
        (z : ZoneRef (Table lib)) (pos : ℕ) (p : Predicate) (w : World)
        → Keeps z (evaluate lib decode_layout z pos p w).1
    unfolding evaluate
    evaluate-Keeps z pos p w = elim (Bool-cases (z.zone_len == 0)) [
      | inl t ↦ rw t (Keeps-self z)
      | inr f ↦ elim (Bool-cases z.loaded) [
        | inl t ↦ simp (f, t) (Keeps-self z)
        | inr n ↦
            simp (f, n)
              (decoded-Keeps z pos p (decode_layout z.node z.dtype w).0 (λ a fields q k h.
                h.source_truth w _ a fields (λ i. (q i, (decode_layout z.node z.dtype w).1)) k))
      ]
    ]
