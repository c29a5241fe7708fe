-- ===== src/Base/Bits.antt =====
-- Masks on one byte as arithmetic; each is a table of at most 256 entries, checked by evaluation.
use native.Mathlib.Omega.{arith}
use Prim.Native.Nat.{ℕ, zero, suc, ◌*◌, ◌/◌, ◌%◌, ◌+◌, ◌<◌, bit_and, bit_or}
use mathlib.Core.Path.{◌≡◌, refl}
use mathlib.Core.Bool.{Bool, true, ◌&&◌}
use aafp_go.Base.Tests.{◌==◌, ==_iff}

-- Two functions that give the same at each number below a bound.
module _ (f g : ℕ → ℕ) where
  agree_below : ℕ → Bool
  agree_below zero = true
  agree_below (suc n) = agree_below n && (f n == g n)

  agree : (n : ℕ) → agree_below n ≡ true → (x : ℕ) → x < n → f x ≡ g x
  unfolding agree_below
  agree zero table x lt = absurd (omega arith)
  agree (suc n) table x lt = grind (arith, agree n, ==_iff (f n) (g n))

pub major_bits : (b : ℕ) → b < 256 → bit_and b 0xe0 ≡ b / 32 * 32
unfolding agree_below
major_bits = agree _ _ 256 refl

pub low_bits : (b : ℕ) → b < 256 → bit_and b 0x1f ≡ b % 32
unfolding agree_below
low_bits = agree _ _ 256 refl

pub critical_bit : (b : ℕ) → b < 256 → bit_and b 0x80 ≡ b / 128 * 128
unfolding agree_below
critical_bit = agree _ _ 256 refl

-- A major type and the additional information fill one byte.
join_table : (b : ℕ) → b < 256 → bit_or (b / 32 * 32) (b % 32) ≡ b
unfolding agree_below
join_table = agree _ _ 256 refl

pub bit_or_join : (m a : ℕ) → m < 8 → a < 32 → bit_or (m * 32) a ≡ m * 32 + a
bit_or_join m a hm ha =
    let high : (m * 32 + a) / 32 ≡ m = omega arith in
    let low : (m * 32 + a) % 32 ≡ a = omega arith in
    rw (high, low) at (join_table (m * 32 + a) (omega arith))
