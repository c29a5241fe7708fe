-- ===== src/Cbor/Decode/RoundTrip/Parts.antt =====
-- The decoder on the encoding of each kind, for an input of `len` bytes that `make` can hold.
use aafp_go.Base.{
  ℕ, suc, ◌+◌, ◌-◌, ◌*◌, ◌^◌, ◌<◌, ◌≤◌, ◌≡◌, ap, ◌∙◌, le→ltb, Bytes, ◌++◌, length, take-append,
  drop-append, length-append, append_assoc, ok, arith,
}
use aafp_go.Base.Int.{ℤ, pos, negsuc}
use aafp_go.Cbor.{Value, unsigned, negative, byte_string, text_string, Limits, n_int}
use aafp_go.Cbor.Head.{encode_head}
use aafp_go.Cbor.Head.RoundTrip.{encode_head-parts, head_ai, first_ai, first_major, read_arg-head}
use aafp_go.Cbor.Encode.{encode_int_key, encode_text}
use aafp_go.Cbor.Decode.{Decoder, read_string, decode_body, decode_step, decode_value, max_int}
use aafp_go.Cbor.Decode.RoundTrip.Shape.{IsInt64}

-- The input is no longer than an int, and `make` can hold as many elements as it has bytes.
pub record Room (limits : Limits) (len : ℕ) : Type 0 where
  pub is_int_len : len ≤ max_int
  pub values_fit : len ≤ limits.max_values
  pub pairs_fit : len ≤ limits.max_pairs

module _ (limits : Limits) (len : ℕ) (room : Room limits len) where
  -- With fuel `f` the decoder reads `c` from the bytes `b`, whatever follows them.
  abbrev pub Reads : ℕ → Value → Bytes → Type 0
  Reads f c b =
      (rest : Bytes)
      → length (b ++ rest) ≤ len
      → decode_value limits len f (b ++ rest) ≡ ok (c, rest)

  pub decode_step-head :
      (dec : Decoder) (m v : ℕ) (rest : Bytes)
      → m < 8
      → v < 2 ^ 64
      → decode_step limits len dec (encode_head (m * 32) v ++ rest)
        ≡ decode_body limits len dec (m * 32) (head_ai v) v rest
  unfolding decode_step
  decode_step-head dec m v rest hm hv =
      rw (encode_head-parts (m * 32) v)
        (rw (first_ai m v hm, first_major m v hm, read_arg-head v rest hv))

  read_string-append :
      (b rest : Bytes)
      → length (b ++ rest) ≤ len
      → read_string limits len (length b) (b ++ rest) ≡ ok (b, rest)
  unfolding read_string
  read_string-append b rest h =
      let small = room.is_int_len in
      let parts = length-append b rest in
      rw
        (
          le→ltb max_int (length b) (omega arith),
          le→ltb (max_int - length b) (len - length (b ++ rest)) (omega arith),
          le→ltb len (len - length (b ++ rest) + length b) (omega arith),
        )
        (λ i. ok (take-append b rest i, drop-append b rest i))

  module _ (f : ℕ) where
    pub Reads-unsigned : (n : ℕ) → n < 2 ^ 64 → Reads (suc f) (unsigned n) (encode_head 0x00 n)
    unfolding decode_value decode_body
    Reads-unsigned n h rest fits =
        decode_step-head (decode_value limits len f) 0 n rest (omega arith) h

    pub Reads-negative :
        (n : ℕ) → n < 2 ^ 63 → Reads (suc f) (negative (negsuc n)) (encode_head 0x20 n)
    unfolding decode_value decode_body n_int
    Reads-negative n h rest fits =
        decode_step-head (decode_value limits len f) 1 n rest (omega arith) (omega arith)
        ∙ rw (le→ltb max_int n (omega arith))

    pub Reads-bytes : (b : Bytes) → Reads (suc f) (byte_string b) (encode_head 0x40 (length b) ++ b)
    unfolding decode_value decode_body
    Reads-bytes b rest fits =
        let head = encode_head 0x40 (length b) in
        let behind : length (b ++ rest) ≤ len =
          omega (arith, ap length (append_assoc head b rest), length-append head (b ++ rest)) in
        ap (decode_step limits len (decode_value limits len f)) (append_assoc head b rest)
        ∙ decode_step-head (decode_value limits len f) 2 (length b) (b ++ rest) (omega arith)
            (omega (arith, length-append b rest, room.is_int_len))
        ∙ rw (read_string-append b rest behind)

    pub Reads-text : (b : Bytes) → Reads (suc f) (text_string b) (encode_text b)
    unfolding decode_value decode_body encode_text
    Reads-text b rest fits =
        let head = encode_head 0x60 (length b) in
        let behind : length (b ++ rest) ≤ len =
          omega (arith, ap length (append_assoc head b rest), length-append head (b ++ rest)) in
        ap (decode_step limits len (decode_value limits len f)) (append_assoc head b rest)
        ∙ decode_step-head (decode_value limits len f) 3 (length b) (b ++ rest) (omega arith)
            (omega (arith, length-append b rest, room.is_int_len))
        ∙ rw (read_string-append b rest behind)

    pub Reads-int_key : (k : ℤ) → IsInt64 k → Reads (suc f) (n_int k) (encode_int_key k)
    unfolding encode_int_key n_int
    Reads-int_key (pos n) h = Reads-unsigned n (omega arith)
    Reads-int_key (negsuc n) h = Reads-negative n h
