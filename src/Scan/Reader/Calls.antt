-- ===== src/Scan/Reader/Calls.antt =====
-- One call of `RecordReader.Next`, from its entry to its answer.
use vortex_go.Base.{
  ℕ, ◌-◌, ◌≤◌, ◌<◌, ◌≡◌, inl, inr, refl, Bool, true, false, Bool-cases, Option, none, some, arith,
}
use vortex_go.Base.Int.{zero_ℤ, one_ℤ, ◌≤ℤ◌, leb_ℤ}
use vortex_go.Outcome.{Error, Action}
use vortex_go.Schema.{VortexType}
use vortex_go.Layout.{Layout}
use vortex_go.ArrayLib.{ArrayLib}
use vortex_go.Zone.Evaluate.{Table}
use vortex_go.Zone.Evaluate.Sound.{Values}
use vortex_go.Scan.Reader.{
  Reader, Batch, Progress, skipped, produced, stopped, finished, stuck, is_skipped, rounds, next,
  run, started, unless_failed, finish,
}
use vortex_go.Scan.Reader.Predicates.{AnyFails}
use vortex_go.Scan.Reader.Next.{IsValid, Leads, rounds_lem}
use vortex_go.Scan.Reader.Kept.{kept, rounds-kept}

module _ (lib : ArrayLib) {World : Type 0}
    (decode_layout : Layout → VortexType → Action World lib.Array)
    (decode_flat : Layout → VortexType → Action World lib.Array)
    (ctx_err : World → Option Error × World) (n : ℕ) (columns : ℕ → Values) where
  abbrev Reads : Type 0
  Reads = Reader lib.Array (Table lib)

  abbrev Valid : Reads → Type 0
  Valid = IsValid lib decode_layout decode_flat ctx_err n columns

  abbrev Fails : Reads → ℕ → Type 0
  Fails r = AnyFails lib decode_layout n columns r.predicates

  abbrev call : Reads → World → Bool × Reads × World
  call = next lib decode_layout decode_flat ctx_err

  abbrev Kept : Reads → Reads → Type 0
  Kept r r' =
      kept lib decode_layout decode_flat ctx_err r' ≡ kept lib decode_layout decode_flat ctx_err r

  -- What a call comes to that returns true.
  abbrev pub Produces : Reads → Reads → Type 0
  Produces r r' =
      (b : Batch lib.Array) × Leads lib decode_layout decode_flat ctx_err n columns r r.pos
        (produced b) r'
      × Kept r r'

  -- What a call comes to that returns false and leaves no error.
  abbrev pub Ends : Reads → Type 0
  Ends r = (row : ℕ) → r.pos ≤ row → row < n → Fails r row

  finish-true :
      (p : Progress lib.Array) (r r1 : Reads) (w : World)
      → Leads lib decode_layout decode_flat ctx_err n columns r r.pos p r1
      → Kept r r1
      → (finish lib decode_layout decode_flat ctx_err p r1 w).0 ≡ true
      → Produces r (finish lib decode_layout decode_flat ctx_err p r1 w).1
  unfolding finish
  finish-true (produced b) r r1 w l k h = (b, l, k)
  finish-true skipped r r1 w l k h = cc
  finish-true (stopped e) r r1 w l k h = cc
  finish-true finished r r1 w l k h = cc
  finish-true stuck r r1 w l k h = cc

  finish-false :
      (p : Progress lib.Array) (r r1 : Reads) (w : World)
      → Leads lib decode_layout decode_flat ctx_err n columns r r.pos p r1
      → is_skipped p ≡ false
      → (finish lib decode_layout decode_flat ctx_err p r1 w).0 ≡ false
      → (finish lib decode_layout decode_flat ctx_err p r1 w).1.error ≡ none
      → Ends r
  unfolding finish
  finish-false (produced b) r r1 w l s h e = cc
  finish-false skipped r r1 w l s h e = cc
  finish-false (stopped c) r r1 w l s h e = cc
  finish-false finished r r1 w l s h e = l
  finish-false stuck r r1 w l s h e = absurd l

  without_current : (r : Reads) → Valid r → Valid (record r { current = none })
  without_current r v = record {
    positive = v.positive;
    all_rows = v.all_rows;
    good = v.good;
    ready = v.ready;
  }

  loop : Reads → World → Progress lib.Array × Reads × World
  loop r w = rounds lib decode_layout decode_flat ctx_err (r.rows - r.pos) r w

  started-true :
      (c : Option Error) (r : Reads) (w : World)
      → Valid r
      → (started lib decode_layout decode_flat ctx_err c r w).0 ≡ true
      → Produces r (started lib decode_layout decode_flat ctx_err c r w).1
  unfolding started finish loop
  started-true (some e) r w v h = cc
  started-true none r w v h =
      let (done, l) = rounds_lem lib decode_layout decode_flat ctx_err n columns r w v in
      let k = rounds-kept lib decode_layout decode_flat ctx_err (r.rows - r.pos) r w in
      let out = loop r w in finish-true out.0 r out.1 out.2 l k h

  started-false :
      (c : Option Error) (r : Reads) (w : World)
      → Valid r
      → (started lib decode_layout decode_flat ctx_err c r w).0 ≡ false
      → (started lib decode_layout decode_flat ctx_err c r w).1.error ≡ none
      → Ends r
  unfolding started finish loop
  started-false (some c) r w v h e = cc
  started-false none r w v h e =
      let (done, l) = rounds_lem lib decode_layout decode_flat ctx_err n columns r w v in
      let out = loop r w in finish-false out.0 r out.1 out.2 l done h e

  unless-true :
      (o : Option Error) (r : Reads) (w : World)
      → Valid r
      → (unless_failed lib decode_layout decode_flat ctx_err o r w).0 ≡ true
      → Produces r (unless_failed lib decode_layout decode_flat ctx_err o r w).1
  unfolding unless_failed run
  unless-true (some e) r w v h = cc
  unless-true none r w v h = elim (Bool-cases (leb_ℤ r.refs zero_ℤ)) [
    | inl z ↦ cc (rw z at h)
    | inr z ↦ rw z (started-true (ctx_err w).0 r (ctx_err w).1 v (rw z at h))
  ]

  unless-false :
      (o : Option Error) (r : Reads) (w : World)
      → Valid r
      → one_ℤ ≤ℤ r.refs
      → o ≡ r.error
      → (unless_failed lib decode_layout decode_flat ctx_err o r w).0 ≡ false
      → (unless_failed lib decode_layout decode_flat ctx_err o r w).1.error ≡ none
      → Ends r
  unfolding unless_failed run
  unless-false (some c) r w v held same h e = cc
  unless-false none r w v held same h e =
      let z : (leb_ℤ r.refs zero_ℤ) ≡ false = ground arith in
      started-false (ctx_err w).0 r (ctx_err w).1 v (rw z at h) (rw z at e)

  pub next-true : (r : Reads) (w : World) → Valid r → (call r w).0 ≡ true → Produces r (call r w).1
  unfolding next
  next-true r w v h = unless-true r.error (record r { current = none }) w (without_current r v) h

  pub next-false :
      (r : Reads) (w : World)
      → Valid r
      → one_ℤ ≤ℤ r.refs
      → (call r w).0 ≡ false
      → (call r w).1.error ≡ none
      → Ends r
  unfolding next
  next-false r w v held h e =
      unless-false r.error (record r { current = none }) w (without_current r v) held refl h e
