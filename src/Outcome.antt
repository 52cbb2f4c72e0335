-- ===== src/Outcome.antt =====
-- Errors as values. An error keeps what the callers can ask of it with `errors.Is`: whether it
-- wraps ErrInvalid or ErrUnsupported (file.go), or the context's cancellation; other errors are
-- `failed`. A Go panic is `panic`. The string is the message's fixed text.
pub mod Act
pub mod Ensures
pub mod Sound
pub mod Always
use vortex_go.Base.{String, Bool, true, false, ◌≡◌, refl, ◌⊎◌, inl, inr}

pub data Error : Type 0 where
  invalid unsupported failed : String → Error
  canceled deadline_exceeded : Error
  panic : Error

-- errors.Is(e, context.Canceled) || errors.Is(e, context.DeadlineExceeded)
abbrev pub is_cancellation : Error → Bool
is_cancellation canceled = true
is_cancellation deadline_exceeded = true
is_cancellation (invalid m) = false
is_cancellation (unsupported m) = false
is_cancellation (failed m) = false
is_cancellation panic = false

pub data Result {ℓ} (A : Type ℓ) : Type ℓ where
  ok : A → Result A
  err : Error → Result A

abbrev pub map_ok {ℓ κ} : {V : Type ℓ} {W : Type κ} → (V → W) → Result V → Result W
map_ok f (err c) = err c
map_ok f (ok v) = ok (f v)

-- `if e != nil { return nil, e }` after a call
infixl 5 ◌>>=◌
abbrev pub ◌>>=◌ {ℓ κ} : {V : Type ℓ} {W : Type κ} → Result V → (V → Result W) → Result W
err c >>= f = err c
ok v >>= f = f v

-- `if bad { return nil, c }`
abbrev pub refuse : Bool → Error → Result (Unit {0})
refuse true c = err c
refuse false c = ok tt

infixl 5 ◌>>◌
abbrev pub ◌>>◌ {ℓ} : {W : Type ℓ} → Result (Unit {0}) → Result W → Result W
check >> rest = check >>= λ done. rest

-- The value with the state that it leaves behind, error or not: a method of a mutable object.
abbrev pub Action {ℓ} : Type ℓ → Type ℓ → Type ℓ
Action S A = S → Result A × S

-- Where a chain of two calls gives a value, the first one did.
pub >>=-eq-ok {ℓ κ} :
    {V : Type ℓ} {W : Type κ} (r : Result V) (next : V → Result W) {w : W}
    → (r >>= next) ≡ ok w
    → (v : V) × (r ≡ ok v) × (next v ≡ ok w)
>>=-eq-ok (err c) next h = cc
>>=-eq-ok (ok v) next h = (v, refl, h)

-- A successful block that began with a refusal was not refused.
pub refuse-eq-ok {ℓ} :
    {A : Type ℓ} (b : Bool) (e : Error) (m : Result A) {a : A}
    → (refuse b e >> m) ≡ ok a
    → (b ≡ false) × (m ≡ ok a)
refuse-eq-ok true e m h = cc
refuse-eq-ok false e m h = (refl, h)

pub ok-injective {ℓ} : {A : Type ℓ} {a b : A} → ok a ≡ ok b → a ≡ b
ok-injective e = cc

pub refuse-ok : (b : Bool) (c : Error) {u : Unit {0}} → refuse b c ≡ ok u → b ≡ false
refuse-ok true c h = cc
refuse-ok false c h = refl

-- To split on a result and keep the equation.
pub Result-cases {ℓ} :
    {A : Type ℓ} (r : Result A) → ((a : A) × (r ≡ ok a)) ⊎ ((a : A) → r ≡ ok a → ⊥)
Result-cases (ok a) = inl (a, refl)
Result-cases (err e) = inr (λ a h. cc)
