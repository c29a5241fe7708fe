-- ===== src/Cbor/Canonical.antt =====
-- `CheckCanonical` and `decodeValueCanonical`, as `Cbor.Decode` models `Decode`: the head of the bytes
-- that are left, the length of the whole input, and fuel for the recursion.
pub mod Heads
pub mod Faults
pub mod Total
pub mod Entries
pub mod Agree
pub mod Written
pub mod CleanEntries
pub mod Accepted
use aafp_go.Cbor.Head.{read_arg_canonical}
use aafp_go.Base.{
  ℕ, zero, suc, ◌+◌, ◌-◌, ◌^◌, Bool, true, false, ◌&&◌, ◌||◌, not, ltb, leb, ◌==◌, if◌then◌else◌,
  Bytes, bytes_eq, List, [], ◌∷◌, ◌++◌, length, take, drop, bit_and, Result, ok, err, panic, ◌>>=◌,
  ◌>>◌, fail_if,
}
use aafp_go.Base.Int.{ℤ, pos, negsuc}
use aafp_go.Base.Utf8.{runes, rune_error}
use aafp_go.Cbor.{
  mt_unsigned, mt_negative, mt_byte_str, mt_text_str, mt_array, mt_map, mt_simple, Value, Items,
  unsigned, negative, byte_string, text_string, array, int_map, str_map, CborError, unexpected_eof,
  indefinite_length, negative_overflow, string_truncated, invalid_utf8, duplicate_key, mixed_keys,
  unsupported_major, trailing_bytes, stuck, Limits, n_int, to_int64, int_eq, to_int_entries,
  to_str_entries,
}
use aafp_go.Cbor.Decode.{Decoder, decode_items, simple_value, max_int}

abbrev no_error_rune : List (ℕ × ℕ) → Bool
no_error_rune [] = true
no_error_rune ((r, w) ∷ rs) = if r == rune_error then false else no_error_rune rs

-- The loop stops at the first U+FFFD, whether it stands for an error or in the text itself.
unfoldable pub is_valid_utf8 : Bytes → Bool
unfolding runes
is_valid_utf8 s = no_error_rune (runes s)

-- The entries read so far: those with integer keys, those with text keys, and whether another key was
-- seen (`allInt` and `allStr` are cleared together).
pub record Seen : Type 0 where
  pub ints : List (ℤ × Value)
  pub strs : List (Bytes × Value)
  pub others : Bool

abbrev pub has_int : ℤ → List (ℤ × Value) → Bool
has_int key [] = false
has_int key ((k, v) ∷ es) = if int_eq k key then true else has_int key es

abbrev pub has_str : Bytes → List (Bytes × Value) → Bool
has_str key [] = false
has_str key ((k, v) ∷ es) = if bytes_eq k key then true else has_str key es

add_int : ℤ → Value → Seen → Result CborError Seen
add_int key v seen =
    if has_int key seen.ints
    then err duplicate_key
    else ok (record seen { ints = seen.ints ++ ((key, v) ∷ []) })

add_str : Bytes → Value → Seen → Result CborError Seen
add_str key v seen =
    if has_str key seen.strs
    then err duplicate_key
    else ok (record seen { strs = seen.strs ++ ((key, v) ∷ []) })

unfoldable pub add_entry : Value → Value → Seen → Result CborError Seen
unfolding add_int add_str to_int64
add_entry (unsigned u) v seen = add_int (to_int64 u) v seen
add_entry (negative n) v seen = add_int n v seen
add_entry (text_string s) v seen = add_str s v seen
add_entry k v seen = ok (record seen { others = true })

unfoldable pub read_entries : Decoder → ℕ → Seen → Bytes → Result CborError (Seen × Bytes)
read_entries dec zero seen rest = ok (seen, rest)
read_entries dec (suc n) seen rest = do
  (k, rest') ← dec rest
  (v, rest'') ← dec rest'
  seen' ← add_entry k v seen
  read_entries dec n seen' rest''

abbrev is_empty {ℓ} : {A : Type ℓ} → List A → Bool
is_empty [] = true
is_empty (x ∷ xs) = false

unfoldable pub map_of_seen : Seen → Result CborError Value
map_of_seen seen =
    if not seen.others && is_empty seen.strs
    then ok (int_map (to_int_entries seen.ints))
    else if not seen.others && is_empty seen.ints
    then ok (str_map (to_str_entries seen.strs))
    else err mixed_keys

abbrev pub is_container : ℕ → Bool
is_container mt = mt == mt_byte_str || mt == mt_text_str || mt == mt_array || mt == mt_map

module _ (limits : Limits) (len : ℕ) where
  -- `end := start + int(arg)` wraps: from 2 ^ 63 on the length is negative, and past the largest int
  -- the sum is. Either way `end > len(data)` is false and `data[start:end]` panics.
  unfoldable pub slice : ℕ → Bytes → Result CborError (Bytes × Bytes)
  slice arg rest =
      if ltb max_int arg || ltb max_int (len - length rest + arg)
      then panic
      else if ltb (length rest) arg
      then err string_truncated
      else ok (take arg rest, drop arg rest)

  -- `make([]Value, arg)` comes before the bytes are looked at.
  unfoldable pub canonical_array : Decoder → ℕ → Bytes → Result CborError (Value × Bytes)
  canonical_array dec arg rest =
      if ltb limits.max_values arg
      then panic
      else (decode_items dec arg rest >>= λ r. ok (array r.0, r.1))

  unfoldable pub canonical_map : Decoder → ℕ → Bytes → Result CborError (Value × Bytes)
  canonical_map dec arg rest =
      read_entries dec arg (record { ints = []; strs = []; others = false }) rest >>= λ r.
      map_of_seen r.0 >>= λ m. ok (m, r.1)

  unfoldable pub canonical_text : ℕ → Bytes → Result CborError (Value × Bytes)
  canonical_text arg rest = slice arg rest >>= λ r.
      if is_valid_utf8 r.0 then ok (text_string r.0, r.1) else err invalid_utf8

  unfoldable pub canonical_body : Decoder → ℕ → ℕ → ℕ → Bytes → Result CborError (Value × Bytes)
  canonical_body dec mt ai arg rest =
      if mt == mt_unsigned
      then ok (unsigned arg, rest)
      else if mt == mt_negative
      then (if ltb max_int arg then err negative_overflow else ok (n_int (negsuc arg), rest))
      else if mt == mt_byte_str
      then (slice arg rest >>= λ r. ok (byte_string r.0, r.1))
      else if mt == mt_text_str
      then canonical_text arg rest
      else if mt == mt_array
      then canonical_array dec arg rest
      else if mt == mt_map
      then canonical_map dec arg rest
      else if mt == mt_simple
      then (simple_value ai >>= λ v. ok (v, rest))
      else err unsupported_major

  unfoldable pub canonical_step : Decoder → Decoder
  canonical_step dec [] = err unexpected_eof
  canonical_step dec (ib ∷ rest) =
      if bit_and ib 0x1f == 31 && is_container (bit_and ib 0xe0)
      then err indefinite_length
      else (read_arg_canonical (bit_and ib 0x1f) rest >>= λ r.
          canonical_body dec (bit_and ib 0xe0) (bit_and ib 0x1f) r.0 r.1)

  unfoldable pub canonical_value : ℕ → Decoder
  canonical_value zero rest = err stuck
  canonical_value (suc fuel) rest = canonical_step (canonical_value fuel) rest

-- The value with the bytes behind it.
unfoldable pub decode_canonical_check : Limits → Bytes → Result CborError (Value × Bytes)
unfolding canonical_value canonical_step canonical_body canonical_array canonical_map canonical_text
    slice read_arg_canonical decode_items read_entries add_entry map_of_seen is_valid_utf8
    simple_value n_int
decode_canonical_check limits input =
    canonical_value limits (length input) (suc (length input)) input

unfoldable pub check_canonical : Limits → Bytes → Result CborError (Unit {0})
unfolding decode_canonical_check
check_canonical limits input = decode_canonical_check limits input >>= λ r.
    fail_if (not (length input - length r.1 == length input)) trailing_bytes
