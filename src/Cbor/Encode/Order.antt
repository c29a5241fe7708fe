-- ===== src/Cbor/Encode/Order.antt =====
-- The order in which `Encode` writes integer keys.
use aafp_go.Base.Bits.{bit_or_join}
use aafp_go.Cbor.Head.{encode_head}
use aafp_go.Base.{ℕ, ◌<◌, ◌≤◌, ◌≡◌, true, length, be_bytes, arith}
use aafp_go.Base.Int.{pos, negsuc}
use aafp_go.Cbor.Encode.{encode_int_key, int_key_less}

-- Length-first order writes a key with a shorter encoding first. The code does not: each key from 24
-- to 255, which takes two bytes, comes before each key from -24 to -1, which takes one.
pub int_key_less_not_length_first :
    (p m : ℕ)
    → 24 ≤ p
    → p < 256
    → m < 24
    → (int_key_less (pos p) (negsuc m) ≡ true)
      × (length (encode_int_key (pos p)) ≡ 2)
      × (length (encode_int_key (negsuc m)) ≡ 1)
unfolding int_key_less encode_int_key encode_head be_bytes
int_key_less_not_length_first p m low high small =
    ground (arith, bit_or_join 1 m (omega arith) (omega arith))
