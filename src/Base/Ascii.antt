-- ===== src/Base/Ascii.antt =====
-- Texts of the source, by their bytes, and what the package fmt writes for %d and %t.
use Prim.Native.Char.{code}
use Prim.Native.String.{String}
use Prim.Native.Nat.{ℕ, zero, suc, ◌+◌, ◌-◌, ◌*◌, ◌/◌, ◌%◌, ◌<◌}
use mathlib.Core.Path.{◌≡◌, ap, ◌∙◌}
use mathlib.Core.Logic.{inl, inr}
use native.Mathlib.Omega.{arith}
use mathlib.Core.List.{[], ◌∷◌}
use aafp_go.Base.Lists.{Bytes}
use aafp_go.Base.Tests.{ltb, if◌then◌else◌, Bool-cases}

-- The bytes of an ASCII text.
abbrev pub ascii : String → Bytes
ascii String.[] = []
ascii (String.◌∷◌ c s) = code c ∷ ascii s

-- The digits in front of those written, with fuel for the number of digits.
digits : ℕ → ℕ → Bytes → Bytes
digits zero n later = later
digits (suc fuel) n later =
    let now = (48 + n % 10) ∷ later in
    let more = digits fuel (n / 10) now in if ltb n 10 then now else more

-- A number has no more digits than its successor says.
unfoldable pub decimal : ℕ → Bytes
unfolding digits
decimal n = digits (suc n) n []

-- Reading decimal digits behind a number.
abbrev read_decimal : ℕ → Bytes → ℕ
read_decimal acc [] = acc
read_decimal acc (d ∷ ds) = read_decimal (acc * 10 + (d - 48)) ds

read_decimal-digits :
    (fuel n : ℕ) (later : Bytes)
    → n < fuel
    → read_decimal 0 (digits fuel n later) ≡ read_decimal n later
unfolding digits
read_decimal-digits zero n later h = absurd (omega arith)
read_decimal-digits (suc fuel) n later h = elim (Bool-cases (ltb n 10)) [
  | inl small ↦ rw small (ap (λ m. read_decimal m later) (ground (arith, small)))
  | inr large ↦ rw large (
      read_decimal-digits fuel (n / 10) ((48 + n % 10) ∷ later) (ground (arith, large))
      ∙ ap (λ m. read_decimal m later) (omega arith))
]

-- The digits written are those of the number: none is missing for want of fuel.
pub decimal-read : (n : ℕ) → read_decimal 0 (decimal n) ≡ n
unfolding decimal
decimal-read n = read_decimal-digits (suc n) n [] (omega arith)
