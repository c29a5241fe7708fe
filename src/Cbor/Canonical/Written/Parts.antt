-- ===== src/Cbor/Canonical/Written/Parts.antt =====
-- The canonical reader on the encoding of each kind without parts, and on the keys of maps.
use aafp_go.Base.{
  ℕ, suc, ◌+◌, ◌-◌, ◌*◌, ◌^◌, ◌<◌, ◌≤◌, ◌≡◌, ap, ◌∙◌, le→ltb, lt→ltb, true, false, ◌==◌, bit_and,
  Bytes, [], ◌∷◌, ◌++◌, length, take-append, drop-append, length-append, append_assoc, ok, arith,
}
use aafp_go.Base.Int.{ℤ, pos, negsuc}
use aafp_go.Cbor.{Value, unsigned, negative, byte_string, text_string, Limits, n_int}
use aafp_go.Cbor.Head.{encode_head, read_arg_canonical}
use aafp_go.Cbor.Head.RoundTrip.{
  encode_head-parts, head_ai, first_ai, first_major, read_arg_canonical-head,
}
use aafp_go.Cbor.Encode.{encode_int_key, encode_text}
use aafp_go.Cbor.Decode.{Decoder, max_int, simple_value}
use aafp_go.Cbor.Canonical.{
  canonical_value, canonical_step, canonical_body, canonical_text, slice, is_valid_utf8,
}
use aafp_go.Cbor.Decode.RoundTrip.Shape.{IsInt64}
use aafp_go.Cbor.Decode.RoundTrip.Parts.{Room}

head_ai-below : (v : ℕ) → (head_ai v == 31) ≡ false
head_ai-below v = ground arith

module _ (limits : Limits) (len : ℕ) (room : Room limits len) where
  -- With fuel `f` the canonical reader reads `c` from the bytes `b`, whatever follows them.
  abbrev pub Accepts : ℕ → Value → Bytes → Type 0
  Accepts f c b =
      (rest : Bytes)
      → length (b ++ rest) ≤ len
      → canonical_value limits len f (b ++ rest) ≡ ok (c, rest)

  pub canonical_step-head :
      (dec : Decoder) (m v : ℕ) (rest : Bytes)
      → m < 8
      → v < 2 ^ 64
      → canonical_step limits len dec (encode_head (m * 32) v ++ rest)
        ≡ canonical_body limits len dec (m * 32) (head_ai v) v rest
  unfolding canonical_step
  canonical_step-head dec m v rest hm hv =
      rw (encode_head-parts (m * 32) v) (
        rw
          (first_ai m v hm, first_major m v hm, head_ai-below v, read_arg_canonical-head v rest hv))

  -- The bytes behind a head.
  pub behind_head :
      (mt v : ℕ) (b rest : Bytes)
      → length ((encode_head mt v ++ b) ++ rest) ≤ len
      → length (b ++ rest) ≤ len
  behind_head mt v b rest h =
      let head = encode_head mt v in
      omega (arith, ap length (append_assoc head b rest), length-append head (b ++ rest))

  slice-append :
      (b rest : Bytes)
      → length (b ++ rest) ≤ len
      → slice limits len (length b) (b ++ rest) ≡ ok (b, rest)
  unfolding slice
  slice-append b rest h =
      let small = room.is_int_len in
      let parts = length-append b rest in
      rw
        (
          le→ltb max_int (length b) (omega arith),
          le→ltb max_int (len - length (b ++ rest) + length b) (omega arith),
          le→ltb (length (b ++ rest)) (length b) (omega arith),
        )
        (λ i. ok (take-append b rest i, drop-append b rest i))

  module _ (f : ℕ) where
    pub Accepts-unsigned : (n : ℕ) → n < 2 ^ 64 → Accepts (suc f) (unsigned n) (encode_head 0x00 n)
    unfolding canonical_value canonical_body
    Accepts-unsigned n h rest fits =
        canonical_step-head (canonical_value limits len f) 0 n rest (omega arith) h

    pub Accepts-negative :
        (n : ℕ) → n < 2 ^ 63 → Accepts (suc f) (negative (negsuc n)) (encode_head 0x20 n)
    unfolding canonical_value canonical_body n_int
    Accepts-negative n h rest fits =
        canonical_step-head (canonical_value limits len f) 1 n rest (omega arith) (omega arith)
        ∙ rw (le→ltb max_int n (omega arith))

    pub Accepts-bytes :
        (b : Bytes) → Accepts (suc f) (byte_string b) (encode_head 0x40 (length b) ++ b)
    unfolding canonical_value canonical_body
    Accepts-bytes b rest fits =
        let head = encode_head 0x40 (length b) in
        let behind = behind_head 0x40 (length b) b rest fits in
        ap (canonical_step limits len (canonical_value limits len f)) (append_assoc head b rest)
        ∙ canonical_step-head (canonical_value limits len f) 2 (length b) (b ++ rest) (omega arith)
            (omega (arith, length-append b rest, room.is_int_len))
        ∙ rw (slice-append b rest behind)

    pub Accepts-text :
        (b : Bytes) → is_valid_utf8 b ≡ true → Accepts (suc f) (text_string b) (encode_text b)
    unfolding canonical_value canonical_body canonical_text encode_text
    Accepts-text b valid rest fits =
        let head = encode_head 0x60 (length b) in
        let behind = behind_head 0x60 (length b) b rest fits in
        ap (canonical_step limits len (canonical_value limits len f)) (append_assoc head b rest)
        ∙ canonical_step-head (canonical_value limits len f) 3 (length b) (b ++ rest) (omega arith)
            (omega (arith, length-append b rest, room.is_int_len))
        ∙ rw (slice-append b rest behind) (rw valid)

    pub Accepts-int_key : (k : ℤ) → IsInt64 k → Accepts (suc f) (n_int k) (encode_int_key k)
    unfolding encode_int_key n_int
    Accepts-int_key (pos n) h = Accepts-unsigned n (omega arith)
    Accepts-int_key (negsuc n) h = Accepts-negative n h

    pub Accepts-simple :
        (ai : ℕ) (v : Value) (b : ℕ)
        → bit_and b 0xe0 ≡ 0xe0
        → bit_and b 0x1f ≡ ai
        → ai < 24
        → simple_value ai ≡ ok v
        → Accepts (suc f) v (b ∷ [])
    unfolding canonical_value canonical_step canonical_body read_arg_canonical
    Accepts-simple ai v b major low small value rest fits =
        let known : (ai == 31) ≡ false = ground (arith, small) in
        rw (major, low) (rw (known, lt→ltb ai 24 small) (rw value))
