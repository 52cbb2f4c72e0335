-- ===== src/Outcome/Always.antt =====
-- `Sound` for actions: what an action gives where it succeeds, whatever the state that it begins in,
-- together with that it does not panic.
use mathlib.Core.Path.{◌≡◌, refl}
use mathlib.Core.Logic.{◌≢◌}
use mathlib.Core.Bool.{Bool, true, false}
use vortex_go.Outcome.{Error, panic, Result, ok, err, refuse, Action}
use vortex_go.Outcome.Act.{pure, raise, lift, continue, ◌>>=◌, ◌>>◌}
use vortex_go.Outcome.Sound.{Sound, Sound-ok, Sound-err, Sound-imp}

pub record Always {S A : Type 0} (m : Action S A) (Q : A → Type 0) : Type 0 where
  pub each : (s : S) → Sound (m s).0 Q

module _ {S A : Type 0} {Q : A → Type 0} where
  pub Always-pure : (a : A) → Q a → Always (pure {S = S} a) Q
  Always-pure a q = record { each = λ s. Sound-ok a q }

  pub Always-raise : (c : Error) → c ≢ panic → Always (raise {S = S} c) Q
  Always-raise c h = record { each = λ s. Sound-err c h }

  pub Always-lift : (r : Result A) → Sound r Q → Always (lift {S = S} r) Q
  Always-lift r h = record { each = λ s. h }

  pub Always-imp :
      {R : A → Type 0} (m : Action S A) → Always m R → ((a : A) → R a → Q a) → Always m Q
  Always-imp m h k = record { each = λ s. Sound-imp (m s).0 (h.each s) k }

  pub Always-refuse :
      (b : Bool) (c : Error) (m : Action S A)
      → c ≢ panic
      → (b ≡ false → Always m Q)
      → Always (lift (refuse b c) >> m) Q
  Always-refuse true c m h k = record { each = λ s. Sound-err c h }
  Always-refuse false c m h k = k refl

module _ {S A B : Type 0} {Q : A → Type 0} {R : B → Type 0} where
  Always-continue :
      (r : Result A) (f : A → Action S B) (s : S)
      → Sound r Q
      → ((a : A) → Q a → Always (f a) R)
      → Sound (continue r f s).0 R
  Always-continue (ok a) f s h k = (k a (h.at a refl)).each s
  Always-continue (err c) f s h k = Sound-err c (λ e. h.safe (λ i. err (e i)))

  pub Always-bind :
      (m : Action S A) (f : A → Action S B)
      → Always m Q
      → ((a : A) → Q a → Always (f a) R)
      → Always (m >>= f) R
  Always-bind m f h k = record { each = λ s. Always-continue (m s).0 f (m s).1 (h.each s) k }
