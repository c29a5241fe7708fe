-- ===== src/Cbor/Access.antt =====
-- The accessors of `Value` in cbor/cbor.go. The Go struct has a field for each kind, and the fields of
-- the other kinds keep their zero values: that is what an accessor gives there. `Int` is `int_of`.
use aafp_go.Base.{ℕ, ◌≡◌, refl, Bool, false, Bytes, []}
use aafp_go.Base.Int.{ℤ, pos}
use aafp_go.Cbor.{
  Value, Items, IntEntries, StrEntries, unsigned, negative, byte_string, text_string, array,
  int_map, str_map, boolean, null, no_items, no_ints, no_strs,
}
use aafp_go.Cbor.Decode.{str_of}

pub data ValueKind : Type 0 where
  kind_unsigned kind_negative kind_byte_string kind_text_string kind_array : ValueKind
  kind_int_map kind_str_map kind_bool kind_null : ValueKind

unfoldable pub kind : Value → ValueKind
kind (unsigned n) = kind_unsigned
kind (negative n) = kind_negative
kind (byte_string b) = kind_byte_string
kind (text_string s) = kind_text_string
kind (array xs) = kind_array
kind (int_map es) = kind_int_map
kind (str_map es) = kind_str_map
kind (boolean b) = kind_bool
kind null = kind_null

unfoldable pub uint_of : Value → ℕ
uint_of (unsigned n) = n
uint_of _ = 0

unfoldable pub neg_of : Value → ℤ
neg_of (negative n) = n
neg_of _ = pos 0

unfoldable pub bytes_of : Value → Bytes
bytes_of (byte_string b) = b
bytes_of _ = []

unfoldable pub arr_of : Value → Items
arr_of (array xs) = xs
arr_of _ = no_items

unfoldable pub int_map_of : Value → IntEntries
int_map_of (int_map es) = es
int_map_of _ = no_ints

unfoldable pub str_map_of : Value → StrEntries
str_map_of (str_map es) = es
str_map_of _ = no_strs

unfoldable pub bool_val : Value → Bool
bool_val (boolean b) = b
bool_val _ = false

-- The Go struct: the kind with every field.
record Fields : Type 0 where
  kind_field : ValueKind
  uint_field : ℕ
  neg_field : ℤ
  bytes_field : Bytes
  str_field : Bytes
  arr_field : Items
  ints_field : IntEntries
  strs_field : StrEntries
  bool_field : Bool

fields : Value → Fields
fields v = record {
  kind_field = kind v;
  uint_field = uint_of v;
  neg_field = neg_of v;
  bytes_field = bytes_of v;
  str_field = str_of v;
  arr_field = arr_of v;
  ints_field = int_map_of v;
  strs_field = str_map_of v;
  bool_field = bool_val v;
}

of_kind : ValueKind → Fields → Value
of_kind kind_unsigned f = unsigned f.uint_field
of_kind kind_negative f = negative f.neg_field
of_kind kind_byte_string f = byte_string f.bytes_field
of_kind kind_text_string f = text_string f.str_field
of_kind kind_array f = array f.arr_field
of_kind kind_int_map f = int_map f.ints_field
of_kind kind_str_map f = str_map f.strs_field
of_kind kind_bool f = boolean f.bool_field
of_kind kind_null f = null

-- Nothing is lost between the struct and the value: the kind and the accessors give the value back.
of_kind-fields : (v : Value) → of_kind (kind v) (fields v) ≡ v
unfolding of_kind fields kind uint_of neg_of bytes_of arr_of int_map_of str_map_of bool_val
of_kind-fields (unsigned n) = refl
of_kind-fields (negative n) = refl
of_kind-fields (byte_string b) = refl
of_kind-fields (text_string s) = refl
of_kind-fields (array xs) = refl
of_kind-fields (int_map es) = refl
of_kind-fields (str_map es) = refl
of_kind-fields (boolean b) = refl
of_kind-fields null = refl
