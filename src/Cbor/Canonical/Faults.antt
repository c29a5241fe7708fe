-- ===== src/Cbor/Canonical/Faults.antt =====
-- Inputs on which the canonical check panics, and what it lets through or refuses against its purpose.
use aafp_go.Cbor.Decode.{max_int}
use aafp_go.Cbor.{Limits}
use aafp_go.Cbor.Head.{read_arg_canonical}
use aafp_go.Base.{
  ℕ, suc, ◌^◌, ◌<◌, ◌≤◌, ◌≡◌, lt→ltb, Bytes, ◌∷◌, ◌++◌, length, panic, ok, be_bytes, arith,
}
use aafp_go.Cbor.Head.RoundTrip.{read_arg_canonical-head}
use aafp_go.Cbor.Canonical.{
  check_canonical, canonical_value, canonical_step, canonical_body, canonical_array, slice,
}

read_wide :
    (arg : ℕ) (tail : Bytes)
    → 2 ^ 32 ≤ arg
    → arg < 2 ^ 64
    → read_arg_canonical 27 (be_bytes 8 arg ++ tail) ≡ ok (arg, tail)
read_wide arg tail low high = ground (arith, read_arg_canonical-head arg tail high)

string_panics :
    (limits : Limits) (len fuel arg : ℕ) (tail : Bytes)
    → 2 ^ 63 ≤ arg
    → arg < 2 ^ 64
    → canonical_value limits len (suc fuel) (0x5b ∷ (be_bytes 8 arg ++ tail)) ≡ panic
unfolding canonical_value canonical_step canonical_body slice
string_panics limits len fuel arg tail low high =
    rw (read_wide arg tail (omega arith) high) (rw (lt→ltb max_int arg (omega arith)))

array_panics :
    (limits : Limits) (len fuel arg : ℕ) (tail : Bytes)
    → 2 ^ 32 ≤ arg
    → limits.max_values < arg
    → arg < 2 ^ 64
    → canonical_value limits len (suc fuel) (0x9b ∷ (be_bytes 8 arg ++ tail)) ≡ panic
unfolding canonical_value canonical_step canonical_body canonical_array
array_panics limits len fuel arg tail wide low high =
    rw (read_wide arg tail wide high) (rw (lt→ltb limits.max_values arg low))

-- A byte string that claims 2 ^ 63 bytes or more makes the check panic, whatever follows its head.
pub check_canonical_string_panics :
    (limits : Limits) (arg : ℕ) (tail : Bytes)
    → 2 ^ 63 ≤ arg
    → arg < 2 ^ 64
    → check_canonical limits (0x5b ∷ (be_bytes 8 arg ++ tail)) ≡ panic
unfolding check_canonical
check_canonical_string_panics limits arg tail low high = rw (
    string_panics limits (suc (length (be_bytes 8 arg ++ tail)))
      (suc (length (be_bytes 8 arg ++ tail))) arg tail low high)

-- An array that claims more items than `make` can allocate makes the check panic, whatever follows
-- its head: the items are allocated before the input is looked at.
pub check_canonical_array_panics :
    (limits : Limits) (arg : ℕ) (tail : Bytes)
    → 2 ^ 32 ≤ arg
    → limits.max_values < arg
    → arg < 2 ^ 64
    → check_canonical limits (0x9b ∷ (be_bytes 8 arg ++ tail)) ≡ panic
unfolding check_canonical
check_canonical_array_panics limits arg tail wide low high = rw (
    array_panics limits (suc (length (be_bytes 8 arg ++ tail)))
      (suc (length (be_bytes 8 arg ++ tail))) arg tail wide low high)
