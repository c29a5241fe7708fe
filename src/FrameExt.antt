-- ===== src/FrameExt.antt =====
-- frameext/frameext.go: the extension section of a frame body, as a list of extensions.
-- `Decode` walks the bytes by a position; here it walks what is left of them.
pub mod RoundTrip
pub mod Lookup
mod Runs
use aafp_go.Base.{
  ℕ, zero, suc, ◌+◌, ◌%◌, ◌^◌, Bool, true, false, not, ltb, ◌==◌, if◌then◌else◌, Bytes, List, [],
  ◌∷◌, ◌++◌, length, take, drop, get_or, Option, none, some, Result, ok, err, panic, be_bytes,
  from_be,
}

abbrev pub header_size : ℕ
header_size = 8

pub record Extension : Type 0 where
  pub ext_type : ℕ
  pub critical : Bool
  pub payload : Bytes

-- `stuck` is no Go error: the loop of `decode` would have run out of fuel.
pub data ExtError : Type 0 where
  data_too_large : ExtError
  incomplete_header : ExtError
  incomplete_data : ExtError
  stuck : ExtError

-- One header. The length of the data is converted to a uint32.
abbrev pub header : Extension → Bytes
header e =
    be_bytes 2 e.ext_type
    ++ ((if e.critical then 0x01 else 0) ∷ 0 ∷ be_bytes 4 (length e.payload % 2 ^ 32))

pub encode_loop : Bytes → List Extension → Result ExtError Bytes
encode_loop buf [] = ok buf
encode_loop buf (e ∷ exts) =
    let rest = encode_loop (buf ++ (header e ++ e.payload)) exts in
    if ltb 0xffffffff (length e.payload) then err data_too_large else rest

unfoldable pub encode : List Extension → Result ExtError Bytes
unfolding encode_loop
encode exts = encode_loop [] exts

abbrev pub data_length : Bytes → ℕ
data_length input = from_be (take 4 (drop 4 input))

abbrev pub cut : Bytes → Extension × Bytes
cut input = (
  record {
    ext_type = from_be (take 2 input);
    critical = get_or 0 input 2 == 0x01;
    payload = take (data_length input) (drop header_size input);
  },
  drop (data_length input) (drop header_size input),
)

-- One round of the loop of `Decode` on a non-empty rest: the extension and what is behind it.
pub decode_one : Bytes → Result ExtError (Extension × Bytes)
decode_one input =
    if ltb (length input) header_size
    then err incomplete_header
    else if ltb (length (drop header_size input) % 2 ^ 32) (data_length input)
    then err incomplete_data
    else ok (cut input)

pub decode_loop : ℕ → Bytes → List Extension → Result ExtError (List Extension)
decode_loop fuel [] exts = ok exts
decode_loop zero (b ∷ bs) exts = err stuck
decode_loop (suc fuel) (b ∷ bs) exts = elim (decode_one (b ∷ bs)) [
  | ok (e, rest) ↦ decode_loop fuel rest (exts ++ (e ∷ []))
  | err x ↦ err x
  | panic ↦ panic
]

-- A round takes eight bytes at least, so the length of the input is fuel enough.
unfoldable pub decode : Bytes → Result ExtError (List Extension)
unfolding decode_loop decode_one
decode input = decode_loop (length input) input []

abbrev pub is_known : List ℕ → ℕ → Bool
is_known [] t = false
is_known (k ∷ known_types) t = if t == k then true else is_known known_types t

-- The type of the first critical extension that is not known, or 0.
pub find_unknown_critical : List Extension → List ℕ → ℕ
find_unknown_critical [] known_types = 0
find_unknown_critical (e ∷ exts) known_types =
    let rest = find_unknown_critical exts known_types in
    if e.critical then (if is_known known_types e.ext_type then rest else e.ext_type) else rest

pub find_extension : List Extension → ℕ → Option Extension
find_extension [] ext_type = none
find_extension (e ∷ exts) ext_type =
    if e.ext_type == ext_type then some e else find_extension exts ext_type
