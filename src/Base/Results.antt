-- ===== src/Base/Results.antt =====
-- Fallible code, with an error type of its own in each component.
use mathlib.Core.Path.{◌≡◌, refl, ap}
use mathlib.Core.Logic.{◌⊎◌, inl, inr}
use native.Mathlib.Omega.{arith}
use mathlib.Core.Bool.{Bool, true, false}

pub data Result {ℓ} (E A : Type ℓ) : Type ℓ where
  ok : A → Result E A
  err : E → Result E A

module _ {ℓ} {E : Type ℓ} where
  infixl 5 ◌>>=◌
  abbrev pub ◌>>=◌ : {A B : Type ℓ} → Result E A → (A → Result E B) → Result E B
  ok a >>= f = f a
  err e >>= f = err e

  infixl 5 ◌>>◌
  abbrev pub ◌>>◌ : {B : Type ℓ} → Result E (Unit {ℓ}) → Result E B → Result E B
  m >> k = m >>= λ _. k

  -- `if (test) throw e;`
  abbrev pub throw_if : Bool → E → Result E (Unit {ℓ})
  throw_if true e = err e
  throw_if false e = ok tt

  -- The value with which the first computation goes on to the outcome of both.
  abbrev pub Through : {A B : Type ℓ} → Result E A → (A → Result E B) → Result E B → Type ℓ
  Through {A} m next r = (a : A) × (m ≡ ok a) × (next a ≡ r)

  pub bind-ok :
      {A B : Type ℓ} (m : Result E A) (next : A → Result E B) {b : B}
      → (m >>= next) ≡ ok b
      → Through m next (ok b)
  bind-ok (err e) next h = absurd (ground arith)
  bind-ok (ok a) next h = (a, refl, h)

  -- A failure is that of the first computation, or that of the second after it.
  pub bind-err :
      {A B : Type ℓ} (m : Result E A) (next : A → Result E B) {e : E}
      → (m >>= next) ≡ err e
      → (m ≡ err e) ⊎ Through m next (err e)
  bind-err (err d) next h = inl (ground arith)
  bind-err (ok a) next h = inr (a, refl, h)

  abbrev ok_or : {A : Type ℓ} → A → Result E A → A
  ok_or d (ok a) = a
  ok_or d (err e) = d

  pub ok_injective : {A : Type ℓ} (a b : A) → ◌≡◌ {A = Result E A} (ok a) (ok b) → a ≡ b
  ok_injective a b h = ap (λ r. ok_or a r) h
