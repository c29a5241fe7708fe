-- ===== src/Cbor/Decode.antt =====
-- `Decode`. What the code reads at a position is here the head of the bytes that are left; `len` is
-- the length of the whole input, so the position is `len` less the bytes left. The recursion of
-- `decodeValue` takes fuel.
pub mod Total
pub mod Typed
pub mod Faults
pub mod RoundTrip
use aafp_go.Cbor.Head.{read_arg}
use aafp_go.Base.{
  ℕ, zero, suc, ◌+◌, ◌-◌, ◌^◌, Bool, true, false, ◌&&◌, not, ltb, leb, ◌==◌, if◌then◌else◌, Bytes,
  List, [], ◌∷◌, length, take, drop, bit_and, Result, ok, err, panic, ◌>>=◌,
}
use aafp_go.Base.Int.{ℤ, pos, negsuc}
use aafp_go.Cbor.{
  mt_unsigned, mt_negative, mt_byte_str, mt_text_str, mt_array, mt_map, mt_simple, simple_false,
  simple_true, simple_null, simple_undef, Value, Items, unsigned, negative, byte_string,
  text_string, array, int_map, str_map, boolean, null, no_items, item, CborError, unexpected_eof,
  negative_overflow, negative_length, length_overflow, string_truncated, array_too_long,
  map_too_long, mixed_keys, unsupported_simple, unsupported_major, stuck, Limits, n_int, int_of,
  to_int_entries, to_str_entries,
}

-- The largest int.
abbrev pub max_int : ℕ
max_int = 2 ^ 63 - 1

-- `checkedAdd(a, int(b))` for a uint64 `b`, which is negative as an int from 2 ^ 63 on.
unfoldable pub checked_add : ℕ → ℕ → Result CborError ℕ
checked_add a b =
    if ltb max_int b
    then err negative_length
    else if ltb (max_int - b) a
    then err length_overflow
    else ok (a + b)

-- A decoder of one value gives the value and what is left of the input.
abbrev pub Decoder : Type 0
Decoder = Bytes → Result CborError (Value × Bytes)

unfoldable pub decode_items : Decoder → ℕ → Bytes → Result CborError (Items × Bytes)
decode_items dec zero rest = ok (no_items, rest)
decode_items dec (suc n) rest = do
  (v, rest') ← dec rest
  (xs, rest'') ← decode_items dec n rest'
  ok (item v xs, rest'')

unfoldable pub decode_pairs : Decoder → ℕ → Bytes → Result CborError (List (Value × Value) × Bytes)
decode_pairs dec zero rest = ok ([], rest)
decode_pairs dec (suc n) rest = do
  (k, rest') ← dec rest
  (v, rest'') ← dec rest'
  (ps, rest''') ← decode_pairs dec n rest''
  ok ((k, v) ∷ ps, rest''')

abbrev pub is_int : Value → Bool
is_int (unsigned n) = true
is_int (negative n) = true
is_int _ = false

abbrev pub is_text : Value → Bool
is_text (text_string s) = true
is_text _ = false

-- `Value.Str`, empty for the other kinds.
abbrev pub str_of : Value → Bytes
str_of (text_string s) = s
str_of _ = []

abbrev pub all_keys : (Value → Bool) → List (Value × Value) → Bool
all_keys p [] = true
all_keys p ((k, v) ∷ ps) = p k && all_keys p ps

abbrev pub int_pairs : List (Value × Value) → List (ℤ × Value)
int_pairs [] = []
int_pairs ((k, v) ∷ ps) = (int_of k, v) ∷ int_pairs ps

abbrev pub str_pairs : List (Value × Value) → List (Bytes × Value)
str_pairs [] = []
str_pairs ((k, v) ∷ ps) = (str_of k, v) ∷ str_pairs ps

unfoldable pub map_of : List (Value × Value) → Result CborError Value
unfolding int_of
map_of ps =
    if all_keys is_int ps
    then ok (int_map (to_int_entries (int_pairs ps)))
    else if all_keys is_text ps
    then ok (str_map (to_str_entries (str_pairs ps)))
    else err mixed_keys

unfoldable pub simple_value : ℕ → Result CborError Value
simple_value ai =
    if ai == simple_false
    then ok (boolean false)
    else if ai == simple_true
    then ok (boolean true)
    else if ai == simple_null
    then ok null
    else if ai == simple_undef
    then ok null
    else err unsupported_simple

module _ (limits : Limits) (len : ℕ) where
  -- The bytes of a string: the slice up to the checked end.
  unfoldable pub read_string : ℕ → Bytes → Result CborError (Bytes × Bytes)
  unfolding checked_add
  read_string arg rest = do
    end ← checked_add (len - length rest) arg
    if ltb len end then err string_truncated else ok (take arg rest, drop arg rest)

  -- `int(arg) > len(data) - *pos`, where `int(arg)` is negative from 2 ^ 63 on.
  abbrev pub exceeds : ℕ → Bytes → Bool
  exceeds arg rest = leb arg max_int && ltb (length rest) arg

  unfoldable pub decode_array : Decoder → ℕ → Bytes → Result CborError (Value × Bytes)
  decode_array dec arg rest =
      if exceeds arg rest
      then err array_too_long
      else if ltb limits.max_values arg
      then panic
      else (decode_items dec arg rest >>= λ r. ok (array r.0, r.1))

  unfoldable pub decode_map : Decoder → ℕ → Bytes → Result CborError (Value × Bytes)
  decode_map dec arg rest =
      if exceeds arg rest
      then err map_too_long
      else if ltb limits.max_pairs arg
      then panic
      else (decode_pairs dec arg rest >>= λ r. map_of r.0 >>= λ m. ok (m, r.1))

  unfoldable pub decode_body : Decoder → ℕ → ℕ → ℕ → Bytes → Result CborError (Value × Bytes)
  decode_body dec mt ai arg rest =
      if mt == mt_unsigned
      then ok (unsigned arg, rest)
      else if mt == mt_negative
      then (if ltb max_int arg then err negative_overflow else ok (n_int (negsuc arg), rest))
      else if mt == mt_byte_str
      then (read_string arg rest >>= λ r. ok (byte_string r.0, r.1))
      else if mt == mt_text_str
      then (read_string arg rest >>= λ r. ok (text_string r.0, r.1))
      else if mt == mt_array
      then decode_array dec arg rest
      else if mt == mt_map
      then decode_map dec arg rest
      else if mt == mt_simple
      then (simple_value ai >>= λ v. ok (v, rest))
      else err unsupported_major

  unfoldable pub decode_step : Decoder → Decoder
  decode_step dec [] = err unexpected_eof
  decode_step dec (ib ∷ rest) = read_arg (bit_and ib 0x1f) rest >>= λ r.
      decode_body dec (bit_and ib 0xe0) (bit_and ib 0x1f) r.0 r.1

  unfoldable pub decode_value : ℕ → Decoder
  decode_value zero rest = err stuck
  decode_value (suc fuel) rest = decode_step (decode_value fuel) rest

-- The value with the number of bytes taken. Every value takes a byte, so the recursion is no deeper
-- than the input is long.
unfoldable pub decode : Limits → Bytes → Result CborError (Value × ℕ)
unfolding decode_value decode_step decode_body read_arg read_string decode_array decode_map
    decode_items decode_pairs map_of simple_value n_int
decode limits input = decode_value limits (length input) (suc (length input)) input >>= λ r.
    ok (r.0, length input - length r.1)
