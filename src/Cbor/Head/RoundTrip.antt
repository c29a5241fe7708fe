-- ===== src/Cbor/Head/RoundTrip.antt =====
-- Reading an argument after `encodeHead`, and the canonical reader against `encodeHead`.
use aafp_go.Base.{
  ℕ, ◌+◌, ◌*◌, ◌^◌, ◌<◌, ◌≡◌, ap, ◌∙◌, subst, ltb, leb, le→ltb, if◌then◌else◌, Bytes, [], ◌∷◌, ◌++◌,
  length, take, drop, bit_or, bit_and, ok, be_bytes, from_be, from_be-be_bytes, length-be_bytes,
  length-append, take-append, drop-append, arith,
}
use aafp_go.Base.Bits.{bit_or_join, major_bits, low_bits}
use aafp_go.Cbor.Head.{encode_head, read_width, read_arg, read_arg_canonical}

-- The additional information and the argument bytes of a number.
abbrev pub head_ai : ℕ → ℕ
head_ai v =
    if ltb v 24
    then v
    else if leb v 0xff
    then 24
    else if leb v 0xffff
    then 25
    else if leb v 0xffffffff
    then 26
    else 27

abbrev pub head_tail : ℕ → Bytes
head_tail v =
    if ltb v 24
    then []
    else if leb v 0xff
    then be_bytes 1 v
    else if leb v 0xffff
    then be_bytes 2 v
    else if leb v 0xffffffff
    then be_bytes 4 v
    else be_bytes 8 v

pub encode_head-parts : (mt v : ℕ) → encode_head mt v ≡ bit_or mt (head_ai v) ∷ head_tail v
unfolding encode_head
encode_head-parts mt v = ground arith

pub head_ai-lt : (v : ℕ) → head_ai v < 32
head_ai-lt v = ground arith

pub first_major : (m v : ℕ) → m < 8 → bit_and (bit_or (m * 32) (head_ai v)) 0xe0 ≡ m * 32
first_major m v h =
    rw (bit_or_join m (head_ai v) h (head_ai-lt v))
      (omega (arith, major_bits (m * 32 + head_ai v) (omega (arith, head_ai-lt v)), head_ai-lt v))

pub first_ai : (m v : ℕ) → m < 8 → bit_and (bit_or (m * 32) (head_ai v)) 0x1f ≡ head_ai v
first_ai m v h =
    rw (bit_or_join m (head_ai v) h (head_ai-lt v))
      (omega (arith, low_bits (m * 32 + head_ai v) (omega (arith, head_ai-lt v)), head_ai-lt v))

read_width-be_bytes :
    (w v : ℕ) (rest : Bytes) → v < 256 ^ w → read_width w (be_bytes w v ++ rest) ≡ ok (v, rest)
unfolding read_width
read_width-be_bytes w v rest h =
    rw
      (le→ltb (length (be_bytes w v ++ rest)) w
        (omega (arith, length-append (be_bytes w v) rest, length-be_bytes w v)))
      (λ i. ok (value i, tail i))
  where
    front : take w (be_bytes w v ++ rest) ≡ be_bytes w v
    front =
        subst (λ k. take k (be_bytes w v ++ rest) ≡ be_bytes w v) (length-be_bytes w v)
          (take-append (be_bytes w v) rest)

    value : from_be (take w (be_bytes w v ++ rest)) ≡ v
    value = ap from_be front ∙ from_be-be_bytes w v h

    tail : drop w (be_bytes w v ++ rest) ≡ rest
    tail =
        subst (λ k. drop k (be_bytes w v ++ rest) ≡ rest) (length-be_bytes w v)
          (drop-append (be_bytes w v) rest)

module _ (v : ℕ) (rest : Bytes) (h : v < 2 ^ 64) where
  pub read_arg-head : read_arg (head_ai v) (head_tail v ++ rest) ≡ ok (v, rest)
  unfolding read_arg
  read_arg-head = ground (
    arith,
    read_width-be_bytes 1 v rest,
    read_width-be_bytes 2 v rest,
    read_width-be_bytes 4 v rest,
    read_width-be_bytes 8 v rest,
  )

  pub read_arg_canonical-head : read_arg_canonical (head_ai v) (head_tail v ++ rest) ≡ ok (v, rest)
  unfolding read_arg_canonical
  read_arg_canonical-head = ground (
    arith,
    read_width-be_bytes 1 v rest,
    read_width-be_bytes 2 v rest,
    read_width-be_bytes 4 v rest,
    read_width-be_bytes 8 v rest,
  )
