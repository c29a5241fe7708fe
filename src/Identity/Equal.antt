-- ===== src/Identity/Equal.antt =====
-- The comparison that does not stop early is equality of the bytes.
use Prim.Native.Nat.{bit_xor, bit_xor-bitwise, bit_or-bitwise, bitwise, digits, differ}
use aafp_go.Base.{
  ℕ, zero, suc, ◌/◌, ◌%◌, ◌≤◌, ◌≡◌, max, refl, sym, ap, ◌∙◌, not, ◌==◌, Bytes, bytes_eq,
  bytes_eq_iff, bit_or, [], ◌∷◌, length, arith, Bool-cases, inl, inr,
}
use aafp_go.Identity.{differences, constant_time_eq}

max_zero : (x y : ℕ) → max x y ≡ 0 → (x ≡ 0) × (y ≡ 0)
max_zero x y h = (omega arith, omega arith)

differ_zero : (x y : ℕ) → differ x y ≡ 0 → x ≡ y
differ_zero zero y h = sym h
differ_zero (suc x) zero h = absurd (omega arith)
differ_zero (suc x) (suc y) h = ap suc (differ_zero x y h)

differ_self : (x : ℕ) → differ x x ≡ 0
differ_self zero = refl
differ_self (suc x) = differ_self x

or_digits : (n a b : ℕ) → a ≤ n → digits (λ c. c) max n a b ≡ 0 → (a ≡ 0) × (b ≡ 0)
or_digits zero a b h z = (omega arith, z)
or_digits (suc n) zero b h z = (refl, z)
or_digits (suc n) (suc a) b h z =
    let (low, _) = max_zero (suc a % 2) (b % 2) (omega arith) in
    let (high, _) = or_digits n (suc a / 2) (b / 2) (omega arith) (omega arith) in
    absurd (omega arith)

bit_or_zero : (a b : ℕ) → bit_or a b ≡ 0 → (a ≡ 0) × (b ≡ 0)
bit_or_zero a b h =
    let digitwise : bit_or a b ≡ bitwise (λ c. c) max a b = bit_or-bitwise a b in
    or_digits a a b (omega arith) (sym digitwise ∙ h)

xor_digits : (n a b : ℕ) → a ≤ n → digits (λ c. c) differ n a b ≡ 0 → a ≡ b
xor_digits zero a b h z = omega arith
xor_digits (suc n) zero b h z = sym z
xor_digits (suc n) (suc a) b h z =
    let low = differ_zero (suc a % 2) (b % 2) (omega arith) in
    let high = xor_digits n (suc a / 2) (b / 2) (omega arith) (omega arith) in omega arith

xor_digits_self : (n a : ℕ) → a ≤ n → digits (λ c. c) differ n a a ≡ 0
xor_digits_self zero a h = omega arith
xor_digits_self (suc n) zero h = refl
xor_digits_self (suc n) (suc a) h =
    let low = differ_self (suc a % 2) in
    let high = xor_digits_self n (suc a / 2) (omega arith) in omega arith

bit_xor_zero : (a b : ℕ) → bit_xor a b ≡ 0 → a ≡ b
bit_xor_zero a b h =
    let digitwise : bit_xor a b ≡ bitwise (λ c. c) differ a b = bit_xor-bitwise a b in
    xor_digits a a b (omega arith) (sym digitwise ∙ h)

bit_xor_self : (a : ℕ) → bit_xor a a ≡ 0
bit_xor_self a =
    let digitwise : bit_xor a a ≡ bitwise (λ c. c) differ a a = bit_xor-bitwise a a in
    digitwise ∙ xor_digits_self a a (omega arith)

differences_zero :
    (a b : Bytes) (r : ℕ) → length a ≡ length b → differences a b r ≡ 0 → (r ≡ 0) × (a ≡ b)
differences_zero [] [] r len h = (h, refl)
differences_zero [] (y ∷ b) r len h = absurd (omega arith)
differences_zero (x ∷ a) [] r len h = absurd (omega arith)
differences_zero (x ∷ a) (y ∷ b) r len h =
    let (so_far, tails) = differences_zero a b (bit_or r (bit_xor x y)) (omega arith) h in
    let (start, heads) = bit_or_zero r (bit_xor x y) so_far in
    let same = bit_xor_zero x y heads in (start, cc)

bit_or_none : bit_or 0 0 ≡ 0
bit_or_none = bit_or-bitwise 0 0

differences_self : (a : Bytes) → differences a a 0 ≡ 0
differences_self [] = refl
differences_self (x ∷ a) = rw (bit_xor_self x, bit_or_none) (differences_self a)

-- `constantTimeEq` of any two byte strings, of any lengths, gives what comparing them gives.
pub constant_time_eq-bytes_eq : (a b : Bytes) → constant_time_eq a b ≡ bytes_eq a b
unfolding constant_time_eq
constant_time_eq-bytes_eq a b = elim (Bool-cases (bytes_eq a b)) [
  | inl same ↦
      let equal : a ≡ b = (bytes_eq_iff a b).0 same in
      let none = differences_self b in rw (same, equal) (ground arith)
  | inr differ_at ↦ rw differ_at (elim (Bool-cases (not (length a == length b))) [
    | inl longer ↦ rw longer refl
    | inr as_long ↦ elim (Bool-cases (differences a b 0 == 0)) [
      | inl zero_sum ↦
          let (_, equal) = differences_zero a b 0 (ground arith) (ground arith) in
          let same = (bytes_eq_iff a b).1 equal in absurd (cc)
      | inr found ↦ rw (as_long, found) refl
    ]
  ])
]
