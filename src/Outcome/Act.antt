-- ===== src/Outcome/Act.antt =====
-- Methods that may fail and that change a state on every path: `Action` as a monad.
use mathlib.Core.Path.{◌≡◌, refl}
use mathlib.Core.Option.{Option, none, some}
use vortex_go.Outcome.{Error, Result, ok, err, Action}

abbrev pub pure {ℓ} : {S A : Type ℓ} → A → Action S A
pure a s = (ok a, s)

abbrev pub raise {ℓ} : {S A : Type ℓ} → Error → Action S A
raise e s = (err e, s)

-- A computation that leaves the state alone.
abbrev pub lift {ℓ} : {S A : Type ℓ} → Result A → Action S A
lift r s = (r, s)

abbrev pub continue {ℓ} : {S A B : Type ℓ} → Result A → (A → Action S B) → Action S B
continue (ok a) f s = f a s
continue (err e) f s = (err e, s)

infixl 5 ◌>>=◌ ◌>>◌
abbrev pub ◌>>=◌ {ℓ} : {S A B : Type ℓ} → Action S A → (A → Action S B) → Action S B
◌>>=◌ m f s = let (r, s') = m s in continue r f s'

abbrev pub ◌>>◌ : {S B : Type 0} → Action S (Unit {0}) → Action S B → Action S B
m >> k = m >>= λ _. k

-- `if err := ctx.Err(); err != nil { return nil, err }`
unfoldable pub answer_of : {S : Type 0} → Option Error × S → Result (Unit {0}) × S
answer_of (none, s) = (ok tt, s)
answer_of (some e, s) = (err e, s)

unfoldable pub check_context : {S : Type 0} → (S → Option Error × S) → Action S (Unit {0})
unfolding answer_of
check_context ctx_err s = answer_of (ctx_err s)

continue-eq-ok {ℓ} :
    {S A B : Type ℓ} (r : Result A) (f : A → Action S B) (s : S) {b : B}
    → (continue r f s).0 ≡ ok b
    → (a : A) × (r ≡ ok a) × ((f a s).0 ≡ ok b)
continue-eq-ok (ok a) f s h = (a, refl, h)
continue-eq-ok (err e) f s h = cc

-- Where a chain of two calls gives a value, the first one did, and the second began where it ended.
pub bind-eq-ok {ℓ} :
    {S A B : Type ℓ} (m : Action S A) (f : A → Action S B) (s : S) {b : B}
    → ((m >>= f) s).0 ≡ ok b
    → (a : A) × ((m s).0 ≡ ok a) × ((f a (m s).1).0 ≡ ok b)
bind-eq-ok m f s h = continue-eq-ok (m s).0 f (m s).1 h
