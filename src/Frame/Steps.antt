-- ===== src/Frame/Steps.antt =====
-- `decode` step by step: what makes it succeed, what a success shows, and what it reads.
use aafp_go.Base.{
  ℕ, ◌+◌, ◌-◌, ◌^◌, ◌<◌, ◌≤◌, ◌≡◌, ap, false, le→ltb, lt→ltb, Bytes, length, get_or, slice-append,
  ◌++◌, ok, err, from_be, arith,
}
use aafp_go.Frame.{
  Frame, decode, cut, read_u64, header_size, incomplete, short_header,
  is_critical_unknown_frame_type, max_payload_size, max_extension_size, version,
}

pub decode_ok :
    (input : Bytes) (e p : ℕ)
    → read_u64 20 input ≡ e
    → read_u64 12 input ≡ p
    → header_size + (e + p) ≤ length input
    → get_or 0 input 0 ≡ version
    → p ≤ max_payload_size
    → e ≤ max_extension_size
    → is_critical_unknown_frame_type (get_or 0 input 1) (get_or 0 input 2) ≡ false
    → decode input ≡ ok (cut input e p, header_size + (e + p))
unfolding decode is_critical_unknown_frame_type
decode_ok input e p he hp fits hv hpl hel hc =
    rw
      (
        he,
        hp,
        hv,
        le→ltb (length input) header_size (omega arith),
        le→ltb max_payload_size p hpl,
        le→ltb max_extension_size e hel,
      )
      (rw
        (
          le→ltb (2 ^ 64 - 1 - p) e (omega arith),
          le→ltb (2 ^ 64 - 1 - (e + p)) header_size (omega arith),
        )
        (rw (le→ltb (length input) (header_size + (e + p)) fits, hc)))

-- With a good header and too few bytes behind it the frame is incomplete.
pub decode_incomplete :
    (input : Bytes) (e p : ℕ)
    → read_u64 20 input ≡ e
    → read_u64 12 input ≡ p
    → header_size ≤ length input
    → length input < header_size + (e + p)
    → get_or 0 input 0 ≡ version
    → p ≤ max_payload_size
    → e ≤ max_extension_size
    → decode input ≡ err incomplete
unfolding decode
decode_incomplete input e p he hp head short hv hpl hel =
    rw
      (
        he,
        hp,
        hv,
        le→ltb (length input) header_size head,
        le→ltb max_payload_size p hpl,
        le→ltb max_extension_size e hel,
      )
      (rw
        (
          le→ltb (2 ^ 64 - 1 - p) e (omega arith),
          le→ltb (2 ^ 64 - 1 - (e + p)) header_size (omega arith),
        )
        (rw (lt→ltb (length input) (header_size + (e + p)) short)))

pub decode_short : (input : Bytes) → length input < header_size → decode input ≡ err short_header
unfolding decode
decode_short input h = rw (lt→ltb (length input) header_size h)

pub record Decoded (input : Bytes) (f : Frame) (n : ℕ) : Type 0 where
  pub header : header_size ≤ length input
  pub current : get_or 0 input 0 ≡ version
  pub payload_small : read_u64 12 input ≤ max_payload_size
  pub extensions_small : read_u64 20 input ≤ max_extension_size
  pub size : n ≡ header_size + (read_u64 20 input + read_u64 12 input)
  pub inside : n ≤ length input
  pub acceptable : is_critical_unknown_frame_type (get_or 0 input 1) (get_or 0 input 2) ≡ false
  pub parts : f ≡ cut input (read_u64 20 input) (read_u64 12 input)

-- What a successful `decode` says of its input: the version, the limits and the type are tested, the
-- bytes are there, and the frame is cut out of them.
pub decode_inv : (input : Bytes) (f : Frame) (n : ℕ) → decode input ≡ ok (f, n) → Decoded input f n
unfolding decode is_critical_unknown_frame_type
decode_inv input f n h = ground arith

pub read_u64-append :
    (i : ℕ) (xs ys : Bytes) → i + 8 ≤ length xs → read_u64 i (xs ++ ys) ≡ read_u64 i xs
read_u64-append i xs ys h = ap from_be (slice-append i 8 xs ys h)
