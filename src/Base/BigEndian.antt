-- ===== src/Base/BigEndian.antt =====
-- `binary.BigEndian`: PutUint16, PutUint32, PutUint64 write `be_bytes` at 2, 4 and 8, and Uint16,
-- Uint32, Uint64 read `from_be` of as many bytes.
use native.Mathlib.Nat.{pow-suc}
use native.Mathlib.Omega.{arith}
use Prim.Native.Nat.{ℕ, zero, suc, ◌+◌, ◌*◌, ◌/◌, ◌%◌, ◌^◌, ◌<◌}
use mathlib.Core.Path.{◌≡◌, refl, ap, ◌∙◌}
use mathlib.Core.List.{[], ◌∷◌, ◌++◌, append-nil, append_assoc}
use aafp_go.Base.Lists.{Bytes, length, length-append, IsBytes, IsBytes-append}

unfoldable pub be_bytes : ℕ → ℕ → Bytes
be_bytes zero v = []
be_bytes (suc k) v = be_bytes k (v / 256) ++ (v % 256 ∷ [])

read_from : ℕ → Bytes → ℕ
read_from acc [] = acc
read_from acc (b ∷ bs) = read_from (acc * 256 + b) bs

unfoldable pub from_be : Bytes → ℕ
unfolding read_from
from_be bs = read_from 0 bs

pub length-be_bytes : (k v : ℕ) → length (be_bytes k v) ≡ k
unfolding be_bytes
length-be_bytes zero v = refl
length-be_bytes (suc k) v =
    omega (arith, length-append (be_bytes k (v / 256)) (v % 256 ∷ []), length-be_bytes k (v / 256))

pub be_bytes-IsBytes : (k v : ℕ) → IsBytes (be_bytes k v)
unfolding be_bytes
be_bytes-IsBytes zero v = tt
be_bytes-IsBytes (suc k) v =
    IsBytes-append (be_bytes k (v / 256)) _ (be_bytes-IsBytes k (v / 256)) (omega arith)

read_from_last :
    (acc : ℕ) (bs : Bytes) (b : ℕ) → read_from acc (bs ++ (b ∷ [])) ≡ read_from acc bs * 256 + b
unfolding read_from
read_from_last acc [] b = refl
read_from_last acc (c ∷ bs) b = read_from_last (acc * 256 + c) bs b

-- Reading gives back every number that fits the width.
pub from_be-be_bytes : (k v : ℕ) → v < 256 ^ k → from_be (be_bytes k v) ≡ v
unfolding from_be be_bytes
from_be-be_bytes zero v h = omega arith
from_be-be_bytes (suc k) v h = omega (
  arith,
  read_from_last 0 (be_bytes k (v / 256)) (v % 256),
  from_be-be_bytes k (v / 256) (omega arith),
)

read_from-lt :
    (acc m : ℕ) (bs : Bytes) → IsBytes bs → acc < m → read_from acc bs < m * 256 ^ length bs
unfolding read_from
read_from-lt acc m [] h p = omega arith
read_from-lt acc m (b ∷ bs) (q, h) p = omega (
  arith,
  ap (λ (t : ℕ). m * t) (pow-suc 256 (length bs)),
  read_from-lt (acc * 256 + b) (m * 256) bs h (omega arith),
)

pub from_be-lt : (bs : Bytes) → IsBytes bs → from_be bs < 256 ^ length bs
unfolding from_be
from_be-lt bs h = omega (arith, read_from-lt 0 1 bs h (omega arith))

be_bytes-snoc :
    (k acc b : ℕ) → b < 256 → be_bytes (suc k) (acc * 256 + b) ≡ be_bytes k acc ++ (b ∷ [])
unfolding be_bytes
be_bytes-snoc k acc b h =
    let high : (acc * 256 + b) / 256 ≡ acc = omega arith in
    let low : (acc * 256 + b) % 256 ≡ b = omega arith in rw (high, low)

be_bytes-read_from :
    (bs : Bytes) (k acc : ℕ)
    → IsBytes bs
    → be_bytes (length bs + k) (read_from acc bs) ≡ be_bytes k acc ++ bs
unfolding read_from
be_bytes-read_from [] k acc h = let same : 0 + k ≡ k = omega arith in rw (same, append-nil)
be_bytes-read_from (b ∷ bs) k acc (q, h) =
    let same : suc (length bs) + k ≡ length bs + suc k = omega arith in
    rw same (
      be_bytes-read_from bs (suc k) (acc * 256 + b) h
      ∙ rw (be_bytes-snoc k acc b q) (append_assoc (be_bytes k acc) (b ∷ []) bs))

-- Writing gives back the bytes that were read.
pub be_bytes-from_be : (bs : Bytes) → IsBytes bs → be_bytes (length bs) (from_be bs) ≡ bs
unfolding from_be be_bytes
be_bytes-from_be bs h =
    let same : length bs + 0 ≡ length bs = omega arith in rw same at (be_bytes-read_from bs 0 0 h)
