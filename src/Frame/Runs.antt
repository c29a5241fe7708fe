-- ===== src/Frame/Runs.antt =====
-- frame/frame.go at concrete frames.
use aafp_go.Frame.RoundTrip.{decode-encode}
use aafp_go.Base.{
  ◌+◌, ◌≡◌, ◌⊎◌, refl, Bytes, [], ◌∷◌, ◌++◌, take, drop, length, be_bytes, from_be, ok, err, arith,
}
use aafp_go.Frame.{
  Frame, encode, decode, IsSendable, header_size, version, type_data,
  is_critical_unknown_frame_type, short_header, incomplete, unknown_critical_type,
}
use aafp_go.Frame.Steps.{Decoded, decode_inv}
use aafp_go.Frame.Sound.{decode_truncated, encode-decode}

abbrev hello : Frame
hello = record {
  version_byte = version;
  frame_type = type_data;
  flags = 0;
  stream_id = 9;
  extensions = 7 ∷ [];
  payload = 104 ∷ 105 ∷ [];
}

-- The bytes of `hello` but the last.
abbrev front : Bytes
front =
    1 ∷ 1 ∷ 0 ∷ 0 ∷ 0 ∷ 0 ∷ 0 ∷ 0 ∷ 0 ∷ 0 ∷ 0 ∷ 9 ∷ 0 ∷ 0 ∷ 0 ∷ 0 ∷ 0 ∷ 0 ∷ 0 ∷ 2 ∷ 0 ∷ 0 ∷ 0 ∷ 0
    ∷ 0 ∷ 0 ∷ 0 ∷ 1 ∷ 7 ∷ 104 ∷ []

abbrev bytes : Bytes
bytes = front ++ (105 ∷ [])

hello-IsSendable : IsSendable hello
unfolding is_critical_unknown_frame_type
hello-IsSendable = ground arith

encode-hello : encode hello ≡ ok bytes
unfolding encode be_bytes
encode-hello = refl

decode-hello : decode bytes ≡ ok (hello, 31)
unfolding decode from_be
decode-hello = refl

-- A critical frame of an unknown type is refused.
decode_critical : decode (1 ∷ 99 ∷ 0x80 ∷ drop 3 bytes) ≡ err unknown_critical_type
unfolding decode from_be
decode_critical = refl

decode-encode_example :
    (bs : Bytes) × (encode hello ≡ ok bs)
    × (length bs ≡ header_size + 1 + 2)
    × (decode (bs ++ (42 ∷ [])) ≡ ok (hello, length bs))
decode-encode_example = decode-encode hello (42 ∷ []) hello-IsSendable

decode_truncated_example : (decode front ≡ err short_header) ⊎ (decode front ≡ err incomplete)
decode_truncated_example = decode_truncated hello front [] 105 hello-IsSendable encode-hello

encode-decode_example : encode hello ≡ ok (take 3 bytes ++ (0 ∷ drop 4 (take 31 bytes)))
encode-decode_example = encode-decode bytes hello 31 (ground arith) decode-hello

decode_inv_example : Decoded bytes hello 31
decode_inv_example = decode_inv bytes hello 31 decode-hello
