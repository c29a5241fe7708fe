-- ===== src/Base/Outcome.antt =====
-- Go's `(value, error)` pair, with the run-time panics that the code can raise.
use mathlib.Core.Path.{◌≡◌, refl}
use mathlib.Core.Logic.{◌⊎◌, inl, inr}
use mathlib.Core.Bool.{Bool, true, false}

pub data Result {ℓ κ} (E : Type ℓ) (A : Type κ) : Type (ℓ ⊔ κ) where
  ok : A → Result E A
  err : E → Result E A
  panic : Result E A

module _ {ℓ} {E : Type ℓ} where
  infixl 5 ◌>>=◌ ◌>>◌
  abbrev pub ◌>>=◌ {κ μ} : {A : Type κ} {B : Type μ} → Result E A → (A → Result E B) → Result E B
  panic >>= next = panic
  err e >>= next = err e
  ok a >>= next = next a

  abbrev pub ◌>>◌ {κ} : {B : Type κ} → Result E (Unit {0}) → Result E B → Result E B
  m >> k = m >>= λ _. k

  -- `if b { return error }`
  abbrev pub fail_if : Bool → E → Result E (Unit {0})
  fail_if true e = err e
  fail_if false e = ok tt

  pub >>=-eq-ok {κ μ} :
      {A : Type κ} {B : Type μ} {b : B} (m : Result E A) (next : A → Result E B)
      → (m >>= next) ≡ ok b
      → (a : A) × (m ≡ ok a) × (next a ≡ ok b)
  >>=-eq-ok panic next h = cc
  >>=-eq-ok (err e) next h = cc
  >>=-eq-ok (ok a) next h = (a, refl, h)

  pub >>=-eq-err {κ μ} :
      {A : Type κ} {B : Type μ} {e : E} (m : Result E A) (next : A → Result E B)
      → (m >>= next) ≡ err e
      → (m ≡ err e) ⊎ ((a : A) × (m ≡ ok a) × (next a ≡ err e))
  >>=-eq-err panic next h = cc
  >>=-eq-err (err e) next h = inl (cc)
  >>=-eq-err (ok a) next h = inr (a, refl, h)

  pub ok_injective {κ} : {A : Type κ} {a b : A} → ◌≡◌ {A = Result E A} (ok a) (ok b) → a ≡ b
  ok_injective h = cc
