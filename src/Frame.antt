-- ===== src/Frame.antt =====
-- frame/frame.go: the 28-byte header, `Encode`, `Decode` and the classes of frame types.
-- A byte slice is a list of numbers, a uint64 a number below 2 ^ 64. An error keeps its kind; the
-- numbers that its text prints are left out.
pub mod Steps
pub mod RoundTrip
pub mod Sound
mod Runs
use aafp_go.Base.{
  ℕ, ◌+◌, ◌-◌, ◌^◌, ◌<◌, ◌≤◌, ◌≡◌, Bool, false, not, ◌&&◌, ◌||◌, ltb, ◌==◌, if◌then◌else◌, Bytes,
  length, take, drop, get_or, ◌∷◌, ◌++◌, bit_and, Result, ok, err, ◌>>=◌, be_bytes, from_be,
}

abbrev pub version : ℕ
version = 1

abbrev pub header_size : ℕ
header_size = 28

abbrev pub max_payload_size : ℕ
max_payload_size = 1048576

abbrev pub max_extension_size : ℕ
max_extension_size = 65536

abbrev pub type_data : ℕ
type_data = 0x01

abbrev pub type_handshake : ℕ
type_handshake = 0x02

abbrev pub type_rpc_request : ℕ
type_rpc_request = 0x03

abbrev pub type_rpc_response : ℕ
type_rpc_response = 0x04

abbrev pub type_close : ℕ
type_close = 0x05

abbrev pub type_error : ℕ
type_error = 0x06

abbrev pub type_ping : ℕ
type_ping = 0x07

abbrev pub type_pong : ℕ
type_pong = 0x08

abbrev pub flag_more : ℕ
flag_more = 0x01

abbrev pub flag_critical : ℕ
flag_critical = 0x80

pub record Frame : Type 0 where
  pub version_byte : ℕ
  pub frame_type : ℕ
  pub flags : ℕ
  pub stream_id : ℕ
  pub extensions : Bytes
  pub payload : Bytes

pub data FrameError : Type 0 where
  short_header : FrameError
  invalid_version : FrameError
  payload_too_large : FrameError
  extension_too_large : FrameError
  length_overflow : FrameError
  incomplete : FrameError
  unknown_critical_type : FrameError

unfoldable pub encode : Frame → Result FrameError Bytes
encode f =
    if ltb max_payload_size (length f.payload)
    then err payload_too_large
    else if ltb max_extension_size (length f.extensions)
    then err extension_too_large
    else ok (
        f.version_byte
        ∷ f.frame_type
        ∷ f.flags
        ∷ 0
        ∷ (be_bytes 8 f.stream_id
            ++ (be_bytes 8 (length f.payload)
                ++ (be_bytes 8 (length f.extensions) ++ (f.extensions ++ f.payload)))))

unfoldable pub is_valid_frame_type : ℕ → Bool
is_valid_frame_type ft =
    ft == type_data
    || ft == type_handshake
    || ft == type_rpc_request
    || ft == type_rpc_response
    || ft == type_close
    || ft == type_error
    || ft == type_ping
    || ft == type_pong

unfoldable pub is_known_frame_type : ℕ → Bool
unfolding is_valid_frame_type
is_known_frame_type ft = is_valid_frame_type ft

abbrev pub is_critical : ℕ → Bool
is_critical flags = not (bit_and flags flag_critical == 0)

unfoldable pub is_critical_unknown_frame_type : ℕ → ℕ → Bool
unfolding is_valid_frame_type
is_critical_unknown_frame_type ft flags = not (is_valid_frame_type ft) && is_critical flags

unfoldable pub is_skippable_unknown_frame_type : ℕ → ℕ → Bool
unfolding is_valid_frame_type
is_skippable_unknown_frame_type ft flags =
    not (is_valid_frame_type ft) && bit_and flags flag_critical == 0

-- `^uint64(0) - b` is exact for a uint64 `b`.
unfoldable pub safe_add64 : ℕ → ℕ → Result FrameError ℕ
safe_add64 a b = if ltb (2 ^ 64 - 1 - b) a then err length_overflow else ok (a + b)

abbrev pub read_u64 : ℕ → Bytes → ℕ
read_u64 at_offset input = from_be (take 8 (drop at_offset input))

-- The slices are in range: the length is tested before.
abbrev pub cut : Bytes → ℕ → ℕ → Frame
cut input ext_len payload_len = record {
  version_byte = get_or 0 input 0;
  frame_type = get_or 0 input 1;
  flags = get_or 0 input 2;
  stream_id = read_u64 4 input;
  extensions = take ext_len (drop header_size input);
  payload = take payload_len (drop ext_len (drop header_size input));
}

-- The frame with the number of bytes taken.
unfoldable pub decode : Bytes → Result FrameError (Frame × ℕ)
unfolding safe_add64 is_valid_frame_type
decode input =
    let payload_len = read_u64 12 input in
    let ext_len = read_u64 20 input in
    if ltb (length input) header_size
    then err short_header
    else if not (get_or 0 input 0 == version)
    then err invalid_version
    else if ltb max_payload_size payload_len
    then err payload_too_large
    else if ltb max_extension_size ext_len
    then err extension_too_large
    else do
      total_body ← safe_add64 ext_len payload_len
      total_frame ← safe_add64 header_size total_body
      if ltb (length input) total_frame
          then err incomplete
          else if not (is_valid_frame_type (get_or 0 input 1)) && is_critical (get_or 0 input 2)
          then err unknown_critical_type
          else ok (cut input ext_len payload_len, total_frame)

-- A frame that `encode` accepts and the peer takes: the sizes, the widths of the fields, the
-- version, and a type that is known or not critical.
pub record IsSendable (f : Frame) : Type 0 where
  pub current : f.version_byte ≡ version
  pub stream_fits : f.stream_id < 2 ^ 64
  pub payload_fits : length f.payload ≤ max_payload_size
  pub extensions_fit : length f.extensions ≤ max_extension_size
  pub acceptable : is_critical_unknown_frame_type f.frame_type f.flags ≡ false
