-- ===== src/Cbor.antt =====
-- cbor/cbor.go: the values, their constructors and the lookups in maps. The children hold the rest:
-- Head (the initial byte and its argument), Encode, Decode and Canonical.
-- A Go string is its bytes, an int64 an integer, a uint64 a number below 2 ^ 64.
pub mod Head
pub mod Encode
pub mod Decode
pub mod Canonical
pub mod Access
mod Runs
use aafp_go.Base.{
  ℕ, ◌-◌, ◌^◌, Bool, true, false, ltb, if◌then◌else◌, Bytes, bytes_eq, ◌==◌, List, [], ◌∷◌, Option,
  none, some,
}
use aafp_go.Base.Int.{ℤ, pos, negsuc}

abbrev pub mt_unsigned : ℕ
mt_unsigned = 0x00

abbrev pub mt_negative : ℕ
mt_negative = 0x20

abbrev pub mt_byte_str : ℕ
mt_byte_str = 0x40

abbrev pub mt_text_str : ℕ
mt_text_str = 0x60

abbrev pub mt_array : ℕ
mt_array = 0x80

abbrev pub mt_map : ℕ
mt_map = 0xa0

abbrev pub mt_simple : ℕ
mt_simple = 0xe0

abbrev pub simple_false : ℕ
simple_false = 20

abbrev pub simple_true : ℕ
simple_true = 21

abbrev pub simple_null : ℕ
simple_null = 22

abbrev pub simple_undef : ℕ
simple_undef = 23

-- A value by its kind, with the field that the kind uses.
mutual
  pub data Value : Type 0 where
    unsigned : ℕ → Value
    negative : ℤ → Value
    byte_string : Bytes → Value
    text_string : Bytes → Value
    array : Items → Value
    int_map : IntEntries → Value
    str_map : StrEntries → Value
    boolean : Bool → Value
    null : Value

  pub data Items : Type 0 where
    no_items : Items
    item : Value → Items → Items

  pub data IntEntries : Type 0 where
    no_ints : IntEntries
    int_entry : ℤ → Value → IntEntries → IntEntries

  pub data StrEntries : Type 0 where
    no_strs : StrEntries
    str_entry : Bytes → Value → StrEntries → StrEntries

-- The errors by kind. `stuck` is no Go error: the decoder's recursion would have run out of fuel.
pub data CborError : Type 0 where
  unexpected_eof truncated_argument bad_additional_info indefinite_length : CborError
  non_canonical negative_overflow negative_length length_overflow : CborError
  string_truncated invalid_utf8 array_too_long map_too_long : CborError
  duplicate_key mixed_keys unsupported_simple unsupported_major trailing_bytes stuck : CborError

-- How many elements `make` can allocate for a slice of values and for a slice of pairs of pointers.
-- Past that the Go runtime panics. The limits depend on the platform.
pub record Limits : Type 0 where
  pub max_values : ℕ
  pub max_pairs : ℕ

unfoldable pub n_int : ℤ → Value
n_int (pos n) = unsigned n
n_int (negsuc n) = negative (negsuc n)

-- `int64(u)` of a uint64.
unfoldable pub to_int64 : ℕ → ℤ
to_int64 u = if ltb u (2 ^ 63) then pos u else negsuc (2 ^ 64 - 1 - u)

-- `Value.Int`: 0 stands for the unset field of the other kinds.
unfoldable pub int_of : Value → ℤ
unfolding to_int64
int_of (unsigned u) = to_int64 u
int_of (negative n) = n
int_of _ = pos 0

abbrev pub int_eq : ℤ → ℤ → Bool
int_eq (pos a) (pos b) = a == b
int_eq (pos a) (negsuc b) = false
int_eq (negsuc a) (pos b) = false
int_eq (negsuc a) (negsuc b) = a == b

pub int_entries_get : IntEntries → ℤ → Option Value
int_entries_get no_ints key = none
int_entries_get (int_entry k v es) key = if int_eq k key then some v else int_entries_get es key

unfoldable pub int_map_get : Value → ℤ → Option Value
unfolding int_entries_get
int_map_get (int_map es) key = int_entries_get es key
int_map_get _ key = none

pub str_entries_get : StrEntries → Bytes → Option Value
str_entries_get no_strs key = none
str_entries_get (str_entry k v es) key = if bytes_eq k key then some v else str_entries_get es key

unfoldable pub str_map_get : Value → Bytes → Option Value
unfolding str_entries_get
str_map_get (str_map es) key = str_entries_get es key
str_map_get _ key = none

abbrev pub to_int_entries : List (ℤ × Value) → IntEntries
to_int_entries [] = no_ints
to_int_entries ((k, v) ∷ es) = int_entry k v (to_int_entries es)

abbrev pub to_str_entries : List (Bytes × Value) → StrEntries
to_str_entries [] = no_strs
to_str_entries ((k, v) ∷ es) = str_entry k v (to_str_entries es)
