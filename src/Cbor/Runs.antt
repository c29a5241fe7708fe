-- ===== src/Cbor/Runs.antt =====
-- cbor/cbor.go on concrete values and bytes.
use aafp_go.Cbor.Decode.RoundTrip.Ordered.{IsOrdering, decode-encode-IsOrdering}
use aafp_go.Cbor.Decode.RoundTrip.Injective.{encode_iff}
use aafp_go.Cbor.Decode.Faults.{decode_array_panics}
use aafp_go.Cbor.Decode.Total.{cbor_decode-ne-stuck}
use aafp_go.Cbor.Decode.Typed.{decode-Fits}
use aafp_go.Cbor.Decode.{decode}
use aafp_go.Cbor.Decode.RoundTrip.Parts.{Room}
use aafp_go.Cbor.Canonical.Heads.{read_arg_canonical-encode_head}
use aafp_go.Cbor.Canonical.{check_canonical, is_valid_utf8}
use aafp_go.Cbor.Canonical.Total.{check_canonical-ne-stuck}
use aafp_go.Cbor.Canonical.Agree.{check_canonical-decode}
use aafp_go.Cbor.Canonical.Written.Clean.{IsClean}
use aafp_go.Cbor.Canonical.Written.Values.{check_canonical-encode}
use aafp_go.Base.{
  ◌≡◌, ◌≢◌, ◌↔◌, ◌<◌, ◌^◌, refl, true, Bytes, [], ◌∷◌, ◌++◌, length, be_bytes, from_be, ok, err,
  panic, arith, bit_or, ◌*◌,
}
use aafp_go.Base.Int.{pos, negsuc}
use aafp_go.Cbor.{
  Value, int_map, text_string, boolean, no_ints, int_entry, Limits, stuck, int_of, to_int64,
}
use aafp_go.Cbor.Head.{encode_head, read_arg_canonical}
use aafp_go.Cbor.Encode.{encode, int_key_less, encode_int_key, encode_text}
use aafp_go.Cbor.Decode.RoundTrip.Shape.{canon, Fits}

-- Slices of up to 4096 elements.
abbrev page : Limits
page = record { max_values = 4096; max_pairs = 4096 }

-- `{-1: "a", 1: true}`, its entries not in canonical order.
abbrev message : Value
message =
    int_map
      (int_entry (negsuc 0) (text_string (97 ∷ [])) (int_entry (pos 1) (boolean true) no_ints))

abbrev message_bytes : Bytes
message_bytes = 0xa2 ∷ 0x01 ∷ 0xf5 ∷ 0x20 ∷ 0x61 ∷ 97 ∷ []

encode-message : encode message ≡ message_bytes
unfolding encode int_key_less encode_int_key encode_head be_bytes encode_text
encode-message = refl

message-Fits : Fits message
message-Fits = ground arith

message-Room : Room page (length (encode message ++ (7 ∷ [])))
unfolding encode int_key_less encode_int_key encode_head be_bytes encode_text
message-Room = record {
  is_int_len = omega arith;
  values_fit = omega arith;
  pairs_fit = omega arith;
}

decode-encode-IsOrdering_example :
    (decode page (encode message ++ (7 ∷ [])) ≡ ok (canon message, length (encode message)))
    × IsOrdering message (canon message)
decode-encode-IsOrdering_example =
    decode-encode-IsOrdering page message (7 ∷ []) message-Fits message-Room

cbor_decode-ne-stuck_example : decode page (0x82 ∷ 0x81 ∷ []) ≢ err stuck
cbor_decode-ne-stuck_example = cbor_decode-ne-stuck page (0x82 ∷ 0x81 ∷ [])

decode_array_panics_example : decode page (0x9b ∷ (be_bytes 8 (2 ^ 63) ++ [])) ≡ panic
decode_array_panics_example =
    decode_array_panics page (2 ^ 63) [] (omega arith) (omega arith) (omega arith)

read_200 : read_arg_canonical 24 (200 ∷ 1 ∷ []) ≡ ok (200, 1 ∷ [])
unfolding read_arg_canonical from_be
read_200 = refl

read_arg_canonical-encode_head_example :
    (read_arg_canonical 24 (200 ∷ 1 ∷ []) ≡ ok (200, 1 ∷ []))
    ↔ ((200 < 2 ^ 64) × (bit_or (2 * 32) 24 ∷ 200 ∷ 1 ∷ [] ≡ encode_head (2 * 32) 200 ++ (1 ∷ [])))
read_arg_canonical-encode_head_example =
    read_arg_canonical-encode_head 2 24 (200 ∷ 1 ∷ []) (1 ∷ []) 200 (omega arith) (omega arith)
      (ground arith)

-- The same map, its entries the other way round.
abbrev reordered : Value
reordered =
    int_map
      (int_entry (pos 1) (boolean true) (int_entry (negsuc 0) (text_string (97 ∷ [])) no_ints))

reordered-Fits : Fits reordered
reordered-Fits = ground arith

length-message : length (encode message) ≡ 6
unfolding encode int_key_less encode_int_key encode_head be_bytes encode_text
length-message = refl

encode_iff_example : (encode message ≡ encode reordered) ↔ (canon message ≡ canon reordered)
encode_iff_example =
    encode_iff message reordered message-Fits reordered-Fits (omega (arith, length-message))

check_canonical-ne-stuck_example : check_canonical page (0xa1 ∷ 0x81 ∷ []) ≢ err stuck
check_canonical-ne-stuck_example = check_canonical-ne-stuck page (0xa1 ∷ 0x81 ∷ [])

check_message : check_canonical page message_bytes ≡ ok tt
unfolding check_canonical is_valid_utf8 from_be
check_message = refl

check_canonical-decode_example : (v : Value) × (decode page message_bytes ≡ ok (v, 6)) × IsClean v
check_canonical-decode_example =
    check_canonical-decode page message_bytes (omega arith) check_message

message-IsClean : IsClean message
unfolding is_valid_utf8
message-IsClean = ground arith

encoding-Room : Room page (length (encode message))
unfolding encode int_key_less encode_int_key encode_head be_bytes encode_text
encoding-Room = record {
  is_int_len = omega arith;
  values_fit = omega arith;
  pairs_fit = omega arith;
}

check_canonical-encode_example : check_canonical page (encode message) ≡ ok tt
check_canonical-encode_example =
    check_canonical-encode page message message-Fits message-IsClean encoding-Room

decode_message :
    decode page message_bytes
    ≡ ok (
      int_map
          (int_entry (pos 1) (boolean true) (int_entry (negsuc 0) (text_string (97 ∷ [])) no_ints)),
      6,
    )
unfolding decode from_be int_of to_int64
decode_message = refl

decode-Fits_example : Fits reordered
decode-Fits_example = decode-Fits page message_bytes reordered 6 (ground arith) decode_message
