-- ===== src/Base/Ensures.antt =====
-- What holds of a result, if there is one: through tests and through one step after another.
use mathlib.Core.Path.{◌≡◌, subst}
use mathlib.Core.Bool.{Bool, true, false}
use aafp_go.Base.Tests.{if◌then◌else◌}
use aafp_go.Base.Outcome.{Result, ok, err, panic, ◌>>=◌, >>=-eq-ok, ok_injective}

pub record Ensures {ℓ κ μ} {E : Type ℓ} {A : Type κ} (P : A → Type μ) (m : Result E A)
    : Type (ℓ ⊔ κ ⊔ μ) where
  pub holds : (a : A) → m ≡ ok a → P a

module _ {ℓ κ μ} {E : Type ℓ} {A : Type κ} (P : A → Type μ) where
  pub Ensures-ok : (a : A) → P a → Ensures {E = E} P (ok a)
  Ensures-ok a p = record { holds = λ b h. subst P (ok_injective h) p }

  pub Ensures-err : (e : E) → Ensures P (err e)
  Ensures-err e = record { holds = λ b h. absurd (cc) }

  pub Ensures-panic : Ensures {E = E} P panic
  Ensures-panic = record { holds = λ b h. absurd (cc) }

  pub Ensures-if :
      (b : Bool) (x y : Result E A) → Ensures P x → Ensures P y → Ensures P (if b then x else y)
  Ensures-if true x y g h = g
  Ensures-if false x y g h = h

  pub Ensures-bind {ν} :
      {B : Type ν} (m : Result E B) (next : B → Result E A)
      → ((b : B) → m ≡ ok b → Ensures P (next b))
      → Ensures P (m >>= next)
  Ensures-bind m next h = record {
    holds = λ a e. let (b, first, second) = >>=-eq-ok m next e in (h b first).holds a second;
  }
