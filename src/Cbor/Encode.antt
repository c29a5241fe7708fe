-- ===== src/Cbor/Encode.antt =====
-- `Encode`. The buffer is the bytes written; writing to it never fails, and every kind is known, so
-- there is no error. A map's values are encoded before its entries are sorted, where the code sorts
-- a copy of the entries first: the order looks at the keys alone, so the bytes are the same.
pub mod Order
pub mod Unordered
pub mod Keys
use aafp_go.Cbor.Head.{encode_head}
use aafp_go.Base.{
  ℕ, suc, ◌+◌, ◌-◌, ◌^◌, Bool, true, false, ltb, ◌==◌, if◌then◌else◌, not, Bytes, List, [], ◌∷◌,
  ◌++◌, length, bit_or,
}
use aafp_go.Base.Int.{ℤ, pos, negsuc}
use aafp_go.Cbor.{
  mt_unsigned, mt_negative, mt_byte_str, mt_text_str, mt_array, mt_map, mt_simple, simple_false,
  simple_true, simple_null, Value, Items, IntEntries, StrEntries, unsigned, negative, byte_string,
  text_string, array, int_map, str_map, boolean, null, no_items, item, no_ints, int_entry, no_strs,
  str_entry,
}

-- `sort.SliceStable` on entries by their keys: entries with equal keys keep their order.
module _ {ℓ κ} {K : Type ℓ} {V : Type κ} (less : K → K → Bool) where
  abbrev pub insert : K × V → List (K × V) → List (K × V)
  insert (k, v) [] = (k, v) ∷ []
  insert (k, v) ((j, w) ∷ es) = if less j k then (j, w) ∷ insert (k, v) es else (k, v) ∷ (j, w) ∷ es

  abbrev pub sort_entries : List (K × V) → List (K × V)
  sort_entries [] = []
  sort_entries (e ∷ es) = insert e (sort_entries es)

-- `bytes.Compare(a, b) < 0`, which is also `a < b` on strings.
abbrev pub bytes_lt : Bytes → Bytes → Bool
bytes_lt a [] = false
bytes_lt [] (y ∷ ys) = true
bytes_lt (x ∷ xs) (y ∷ ys) = if ltb x y then true else if ltb y x then false else bytes_lt xs ys

-- `uint64(-v.neg - 1)`.
abbrev pub neg_arg : ℤ → ℕ
neg_arg (pos n) = 2 ^ 64 - 1 - n
neg_arg (negsuc n) = n

-- `Encode(NInt(n))`.
unfoldable pub encode_int_key : ℤ → Bytes
encode_int_key (pos n) = encode_head mt_unsigned n
encode_int_key (negsuc n) = encode_head mt_negative (neg_arg (negsuc n))

unfoldable pub int_key_less : ℤ → ℤ → Bool
unfolding encode_int_key
int_key_less a b = bytes_lt (encode_int_key a) (encode_int_key b)

unfoldable pub str_key_less : Bytes → Bytes → Bool
str_key_less a b = if not (length a == length b) then ltb (length a) (length b) else bytes_lt a b

-- `encodeValue(TStr(s))`.
unfoldable pub encode_text : Bytes → Bytes
encode_text s = encode_head mt_text_str (length s) ++ s

abbrev pub join : List Bytes → Bytes
join [] = []
join (b ∷ bs) = b ++ join bs

abbrev pub write_ints : List (ℤ × Bytes) → Bytes
write_ints [] = []
write_ints ((k, b) ∷ es) = encode_int_key k ++ (b ++ write_ints es)

abbrev pub write_strs : List (Bytes × Bytes) → Bytes
write_strs [] = []
write_strs ((k, b) ∷ es) = encode_text k ++ (b ++ write_strs es)

abbrev pub write_int_map : List (ℤ × Bytes) → Bytes
write_int_map es = encode_head mt_map (length es) ++ write_ints (sort_entries int_key_less es)

abbrev pub write_str_map : List (Bytes × Bytes) → Bytes
write_str_map es = encode_head mt_map (length es) ++ write_strs (sort_entries str_key_less es)

abbrev pub count_items : Items → ℕ
count_items no_items = 0
count_items (item v xs) = suc (count_items xs)

unfoldable mutual
  pub encode : Value → Bytes
  encode (unsigned n) = encode_head mt_unsigned n
  encode (negative n) = encode_head mt_negative (neg_arg n)
  encode (byte_string b) = encode_head mt_byte_str (length b) ++ b
  encode (text_string s) = encode_text s
  encode (array xs) = encode_head mt_array (count_items xs) ++ encode_items xs
  encode (int_map es) = write_int_map (encode_ints es)
  encode (str_map es) = write_str_map (encode_strs es)
  encode (boolean b) = bit_or mt_simple (if b then simple_true else simple_false) ∷ []
  encode null = bit_or mt_simple simple_null ∷ []

  pub encode_items : Items → Bytes
  encode_items no_items = []
  encode_items (item v xs) = encode v ++ encode_items xs

  pub encode_ints : IntEntries → List (ℤ × Bytes)
  encode_ints no_ints = []
  encode_ints (int_entry k v es) = (k, encode v) ∷ encode_ints es

  pub encode_strs : StrEntries → List (Bytes × Bytes)
  encode_strs no_strs = []
  encode_strs (str_entry k v es) = (k, encode v) ∷ encode_strs es
