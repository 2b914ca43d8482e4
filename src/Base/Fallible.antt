-- ===== src/Base/Fallible.antt =====
-- Calls that may raise: the result, or the exception.
use mathlib.Core.Path.{◌≡◌, refl}
use mathlib.Core.Logic.{◌⊎◌, inl, inr}
use mathlib.Core.Bool.{Bool, true, false, cond}
use mathlib.Core.List.{List, [], ◌∷◌}

pub data Result {ℓ κ} (E : Type ℓ) (A : Type κ) : Type (ℓ ⊔ κ) where
  ok : A → Result E A
  err : E → Result E A

infixl 5 ◌>>=◌
abbrev pub ◌>>=◌ {ℓ κ ν} :
    {E : Type ℓ} {A : Type κ} {B : Type ν} → Result E A → (A → Result E B) → Result E B
ok a >>= f = f a
err e >>= f = err e

pub Result-cases {ℓ κ} :
    {E : Type ℓ} {A : Type κ} (r : Result E A) → ((a : A) × (r ≡ ok a)) ⊎ ((e : E) × (r ≡ err e))
Result-cases (ok a) = inl (a, refl)
Result-cases (err e) = inr (e, refl)

-- `any(test(x) for x in xs)` and `all(…)`, for a test that may raise: both stop at the first
-- element that decides, or that raises.
module _ {ℓ κ} {E : Type ℓ} {A : Type κ} where
  abbrev pub any_ok : (A → Result E Bool) → List A → Result E Bool
  any_ok test [] = ok false
  any_ok test (x ∷ xs) = elim (test x) [
    | ok true ↦ ok true
    | ok false ↦ any_ok test xs
    | err e ↦ err e
  ]

  abbrev pub all_ok : (A → Result E Bool) → List A → Result E Bool
  all_ok test [] = ok true
  all_ok test (x ∷ xs) = elim (test x) [
    | ok true ↦ all_ok test xs
    | ok false ↦ ok false
    | err e ↦ err e
  ]

module _ {ℓ κ} {E : Type ℓ} {A : Type κ} where
  pub ok-injective : (a b : A) → ◌≡◌ {A = Result E A} (ok a) (ok b) → a ≡ b
  ok-injective a b h = cc

-- What a chain of calls that returned has gone through.
pub bind-eq-ok {ℓ κ ν} :
    {E : Type ℓ} {A : Type κ} {B : Type ν} (m : Result E A) (f : A → Result E B) {b : B}
    → (m >>= f) ≡ ok b
    → (a : A) × (m ≡ ok a) × (f a ≡ ok b)
bind-eq-ok (ok a) f h = (a, refl, h)
bind-eq-ok (err e) f h = cc

module _ {ℓ κ} {E : Type ℓ} {A : Type κ} (test : A → Result E Bool) (x : A) (xs : List A) where
  pub all_ok-cons :
      (b : Bool) → test x ≡ ok b → all_ok test (x ∷ xs) ≡ cond b (all_ok test xs) (ok false)
  all_ok-cons true h = rw (h, all_ok)
  all_ok-cons false h = rw (h, all_ok)

  pub any_ok-cons :
      (b : Bool) → test x ≡ ok b → any_ok test (x ∷ xs) ≡ cond b (ok true) (any_ok test xs)
  any_ok-cons true h = rw (h, any_ok)
  any_ok-cons false h = rw (h, any_ok)
