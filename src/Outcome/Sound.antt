-- ===== src/Outcome/Sound.antt =====
-- What a computation gives where it succeeds, together with that it does not panic: a postcondition
-- with a rule for each way to build a computation.
use Prim.Native.String.{String}
use mathlib.Core.Path.{◌≡◌, refl, subst}
use mathlib.Core.Logic.{◌≢◌}
use mathlib.Core.Bool.{Bool, true, false}
use vortex_go.Base.{if◌then◌else◌}
use vortex_go.Outcome.{Error, failed, panic, Result, ok, err, refuse, ◌>>=◌, ◌>>◌, ok-injective}

pub record Sound {A : Type 0} (r : Result A) (Q : A → Type 0) : Type 0 where
  pub at : (a : A) → r ≡ ok a → Q a
  pub safe : r ≢ err panic

err-injective : {A : Type 0} {c e : Error} → ◌≡◌ {A = Result A} (err c) (err e) → c ≡ e
err-injective h = cc

pub failed-ne-panic : (m : String) → failed m ≢ panic
failed-ne-panic m = λ e. cc

module _ {A : Type 0} {Q : A → Type 0} where
  pub Sound-ok : (a : A) → Q a → Sound (ok a) Q
  Sound-ok a q = record { at = λ b e. subst Q (ok-injective e) q; safe = λ e. cc }

  pub Sound-err : (c : Error) → c ≢ panic → Sound (err c) Q
  Sound-err c h = record { at = λ b e. cc; safe = λ e. h (err-injective {A = A} e) }

  pub Sound-imp : {R : A → Type 0} (r : Result A) → Sound r R → ((a : A) → R a → Q a) → Sound r Q
  Sound-imp r h k = record { at = λ a e. k a (h.at a e); safe = h.safe }

  -- `if bad { return nil, c }`
  pub Sound-refuse :
      (b : Bool) (c : Error) (m : Result A)
      → c ≢ panic
      → (b ≡ false → Sound m Q)
      → Sound (refuse b c >> m) Q
  Sound-refuse true c m h k = Sound-err c h
  Sound-refuse false c m h k = k refl

module _ {A B : Type 0} {Q : A → Type 0} {R : B → Type 0} where
  pub Sound-bind :
      (r : Result A) (f : A → Result B)
      → Sound r Q
      → ((a : A) → Q a → Sound (f a) R)
      → Sound (r >>= f) R
  Sound-bind (ok a) f h k = k a (h.at a refl)
  Sound-bind (err c) f h k = Sound-err c (λ e. h.safe (λ i. err (e i)))

-- A check with nothing behind it.
pub Sound-check : (b : Bool) (c : Error) → c ≢ panic → Sound (refuse b c) (λ u. Unit {0})
Sound-check true c h = Sound-err c h
Sound-check false c h = Sound-ok tt tt

-- `if bad { return nil, c }` as a conditional
pub Sound-unless :
    {A : Type 0} {Q : A → Type 0} (b : Bool) (c : Error) (m : Result A)
    → c ≢ panic
    → Sound m Q
    → Sound (if b then err c else m) Q
Sound-unless true c m h k = Sound-err c h
Sound-unless false c m h k = k
