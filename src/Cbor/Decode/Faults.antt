-- ===== src/Cbor/Decode/Faults.antt =====
-- An input on which `Decode` panics.
use aafp_go.Cbor.Head.RoundTrip.{read_arg-head}
use aafp_go.Cbor.Head.{read_arg}
use aafp_go.Cbor.{Limits}
use aafp_go.Base.{
  ℕ, suc, ◌^◌, ◌<◌, ◌≤◌, ◌≡◌, leb, lt→ltb, false, Bytes, ◌∷◌, ◌++◌, length, panic, ok, be_bytes,
  arith,
}
use aafp_go.Cbor.Decode.{decode, decode_value, decode_step, decode_body, decode_array, max_int}

read_wide :
    (arg : ℕ) (tail : Bytes)
    → 2 ^ 32 ≤ arg
    → arg < 2 ^ 64
    → read_arg 27 (be_bytes 8 arg ++ tail) ≡ ok (arg, tail)
read_wide arg tail low high = ground (arith, read_arg-head arg tail high)

array_panics :
    (limits : Limits) (len fuel arg : ℕ) (tail : Bytes)
    → 2 ^ 63 ≤ arg
    → limits.max_values < arg
    → arg < 2 ^ 64
    → decode_value limits len (suc fuel) (0x9b ∷ (be_bytes 8 arg ++ tail)) ≡ panic
unfolding decode_value decode_step decode_body decode_array
array_panics limits len fuel arg tail wide low high =
    let negative : leb arg max_int ≡ false = ground arith in
    rw (read_wide arg tail (omega arith) high) (rw (negative, lt→ltb limits.max_values arg low))

-- An array that claims 2 ^ 63 items or more makes `Decode` panic, whatever follows its head: as an
-- int the count is negative, so it passes the test against the bytes left, and `make` refuses it.
pub decode_array_panics :
    (limits : Limits) (arg : ℕ) (tail : Bytes)
    → 2 ^ 63 ≤ arg
    → limits.max_values < arg
    → arg < 2 ^ 64
    → decode limits (0x9b ∷ (be_bytes 8 arg ++ tail)) ≡ panic
unfolding decode
decode_array_panics limits arg tail wide low high = rw (
    array_panics limits (suc (length (be_bytes 8 arg ++ tail)))
      (suc (length (be_bytes 8 arg ++ tail))) arg tail wide low high)
