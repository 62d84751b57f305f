-- ===== src/Prelude/State.antt =====
-- Go functions that call out: a function of the world that gives an answer and the next world.
-- An `error` is an `Option String`, a pair `(T, error)` is a `Result T`.
use Prim.Native.String.{String}
use mathlib.Core.Path.{◌≡◌, refl}
use mathlib.Core.Logic.{◌⊎◌, inl, inr}

pub data Result {ℓ} (A : Type ℓ) : Type ℓ where
  ok : A → Result A
  err : String → Result A

abbrev pub Call : Type 0 → Type 0 → Type 0
Call W A = W → A × W

abbrev pub pure : {W A : Type 0} → A → Call W A
pure a w = (a, w)

infixl 5 ◌>>=◌
abbrev pub ◌>>=◌ : {W A B : Type 0} → Call W A → (A → Call W B) → Call W B
◌>>=◌ m f w = f (m w).0 (m w).1

pub Result-cases {ℓ} :
    {A : Type ℓ} (r : Result A) → ((a : A) × (r ≡ ok a)) ⊎ ((e : String) × (r ≡ err e))
Result-cases (ok a) = inl (a, refl)
Result-cases (err e) = inr (e, refl)
