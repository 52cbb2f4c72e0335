-- ===== src/Outcome/Ensures.antt =====
-- What an action that returns leaves behind: a postcondition of its value and its final state, with a
-- rule for each way to build an action.
use mathlib.Core.Path.{◌≡◌, refl, subst}
use mathlib.Core.Bool.{Bool, true, false}
use vortex_go.Outcome.{Error, Result, ok, err, refuse, Action, ok-injective}
use vortex_go.Outcome.Act.{pure, raise, lift, continue, ◌>>=◌, ◌>>◌}

pub record Ensures {S A : Type 0} (m : Action S A) (s : S) (Q : A → S → Type 0) : Type 0 where
  pub at : (a : A) → (m s).0 ≡ ok a → Q a (m s).1

module _ {S A : Type 0} {Q : A → S → Type 0} where
  pub Ensures-pure : (a : A) (s : S) → Q a s → Ensures (pure a) s Q
  Ensures-pure a s q = record { at = λ b e. subst (λ x. Q x s) (ok-injective e) q }

  pub Ensures-raise : (c : Error) (s : S) → Ensures (raise c) s Q
  Ensures-raise c s = record { at = λ b e. cc }

  pub Ensures-lift : (r : Result A) (s : S) → ((a : A) → r ≡ ok a → Q a s) → Ensures (lift r) s Q
  Ensures-lift r s q = record { at = q }

module _ {S A B : Type 0} {R : B → S → Type 0} where
  Ensures-continue :
      (r : Result A) (f : A → Action S B) (s : S)
      → ((a : A) → r ≡ ok a → Ensures (f a) s R)
      → (b : B) → (continue r f s).0 ≡ ok b
      → R b (continue r f s).1
  Ensures-continue (ok a) f s k b e = (k a refl).at b e
  Ensures-continue (err c) f s k b e = cc

module _ {S A B : Type 0} {Q : A → S → Type 0} {R : B → S → Type 0} where
  pub Ensures-bind :
      (m : Action S A) (f : A → Action S B) (s : S)
      → Ensures m s Q
      → ((a : A) (t : S) → Q a t → Ensures (f a) t R)
      → Ensures (m >>= f) s R
  Ensures-bind m f s h k = record {
    at = Ensures-continue (m s).0 f (m s).1 (λ a e. k a (m s).1 (h.at a e));
  }

module _ {S A B : Type 0} {R : B → S → Type 0} where
  -- A step that leaves the state alone: the rest may use what it returned.
  pub Ensures-bind-lift :
      (r : Result A) (f : A → Action S B) (s : S)
      → ((a : A) → r ≡ ok a → Ensures (f a) s R)
      → Ensures (lift r >>= f) s R
  Ensures-bind-lift (ok a) f s k = k a refl
  Ensures-bind-lift (err c) f s k = record { at = λ b e. cc }

module _ {S B : Type 0} {R : B → S → Type 0} where
  pub Ensures-bind-refuse :
      (b : Bool) (c : Error) (m : Action S B) (s : S)
      → (b ≡ false → Ensures m s R)
      → Ensures (lift (refuse b c) >> m) s R
  Ensures-bind-refuse true c m s k = record { at = λ a e. cc }
  Ensures-bind-refuse false c m s k = k refl
