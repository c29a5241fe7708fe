-- ===== src/Frame/RoundTrip.antt =====
-- `decode` after `encode`.
use aafp_go.Frame.Steps.{decode_ok}
use aafp_go.Base.{
  ◌+◌, ◌≤◌, ◌≡◌, refl, ◌∙◌, get_or, Bytes, length, take, drop, ◌∷◌, ◌++◌, ok, be_bytes,
  from_be-be_bytes, length-append, take-append, drop-append, append_assoc, arith,
}
use aafp_go.Frame.{
  Frame, encode, decode, cut, read_u64, IsSendable, header_size, is_critical_unknown_frame_type,
}

wire : Frame → Bytes
wire f =
    f.version_byte
    ∷ f.frame_type
    ∷ f.flags
    ∷ 0
    ∷ (be_bytes 8 f.stream_id
        ++ (be_bytes 8 (length f.payload)
            ++ (be_bytes 8 (length f.extensions) ++ (f.extensions ++ f.payload))))

encode-wire : (f : Frame) → IsSendable f → encode f ≡ ok (wire f)
unfolding encode wire
encode-wire f s = ground arith

length-wire : (f : Frame) → length (wire f) ≡ header_size + length f.extensions + length f.payload
unfolding wire be_bytes
length-wire f = omega (arith, length-append f.extensions f.payload)

module _ (f : Frame) (s : IsSendable f) (rest : Bytes) where
  stream_read : read_u64 4 (wire f ++ rest) ≡ f.stream_id
  unfolding wire
  stream_read = unfold be_bytes in from_be-be_bytes 8 f.stream_id s.stream_fits

  payload_length_read : read_u64 12 (wire f ++ rest) ≡ length f.payload
  unfolding wire
  payload_length_read = unfold be_bytes in from_be-be_bytes 8 (length f.payload) (omega arith)

  ext_length_read : read_u64 20 (wire f ++ rest) ≡ length f.extensions
  unfolding wire
  ext_length_read = unfold be_bytes in from_be-be_bytes 8 (length f.extensions) (omega arith)

  body : drop header_size (wire f ++ rest) ≡ f.extensions ++ (f.payload ++ rest)
  unfolding wire be_bytes
  body = append_assoc f.extensions f.payload rest

  extensions_cut : take (length f.extensions) (drop header_size (wire f ++ rest)) ≡ f.extensions
  extensions_cut = rw body (take-append f.extensions (f.payload ++ rest))

  payload_cut :
      take (length f.payload) (drop (length f.extensions) (drop header_size (wire f ++ rest)))
      ≡ f.payload
  payload_cut = rw (body, drop-append f.extensions (f.payload ++ rest)) (take-append f.payload rest)

  cut-wire : cut (wire f ++ rest) (length f.extensions) (length f.payload) ≡ f
  cut-wire = λ i. record {
    version_byte = head i;
    frame_type = type_byte i;
    flags = flag_byte i;
    stream_id = stream_read i;
    extensions = extensions_cut i;
    payload = payload_cut i;
  }
    where
      head : get_or 0 (wire f ++ rest) 0 ≡ f.version_byte
      head = unfold wire in refl

      type_byte : get_or 0 (wire f ++ rest) 1 ≡ f.frame_type
      type_byte = unfold wire in refl

      flag_byte : get_or 0 (wire f ++ rest) 2 ≡ f.flags
      flag_byte = unfold wire in refl

  whole : header_size + (length f.extensions + length f.payload) ≡ length (wire f)
  whole = omega (arith, length-wire f)

  fits : header_size + (length f.extensions + length f.payload) ≤ length (wire f ++ rest)
  fits = omega (arith, length-append (wire f) rest, whole)

  decode-wire : decode (wire f ++ rest) ≡ ok (f, length (wire f))
  unfolding is_critical_unknown_frame_type wire
  decode-wire =
      decode_ok (wire f ++ rest) (length f.extensions) (length f.payload) ext_length_read
        payload_length_read fits s.current s.payload_fits s.extensions_fit s.acceptable
      ∙ λ i. ok (cut-wire i, whole i)

-- Every frame that can be sent is encoded, to 28 bytes, the extensions and the payload; decoding
-- that, with anything behind it, gives the frame and the length of its encoding.
pub decode-encode :
    (f : Frame) (rest : Bytes)
    → IsSendable f
    → (bs : Bytes) × (encode f ≡ ok bs)
      × (length bs ≡ header_size + length f.extensions + length f.payload)
      × (decode (bs ++ rest) ≡ ok (f, length bs))
decode-encode f rest s = (wire f, encode-wire f s, length-wire f, decode-wire f s rest)
