-- ===== src/Cbor/Decode/RoundTrip/Shape.antt =====
-- The value that `decode` gives back for a value, and the values that have an encoding.
use aafp_go.Base.{ℕ, suc, ◌^◌, ◌<◌, max, Bytes, List, [], ◌∷◌}
use aafp_go.Base.Int.{ℤ, pos, negsuc}
use aafp_go.Cbor.{
  Value, Items, IntEntries, StrEntries, unsigned, negative, byte_string, text_string, array,
  int_map, str_map, boolean, null, no_items, item, no_ints, int_entry, no_strs, str_entry,
  to_int_entries, to_str_entries,
}
use aafp_go.Cbor.Encode.{sort_entries, int_key_less, str_key_less}

-- An empty map of either kind is written alike, and reads as a map with integer keys.
abbrev pub str_map_of : List (Bytes × Value) → Value
str_map_of [] = int_map no_ints
str_map_of (e ∷ es) = str_map (to_str_entries (e ∷ es))

-- Each map in the order of its keys' encodings.
unfoldable mutual
  pub canon : Value → Value
  canon (unsigned n) = unsigned n
  canon (negative n) = negative n
  canon (byte_string b) = byte_string b
  canon (text_string s) = text_string s
  canon (array xs) = array (canon_items xs)
  canon (int_map es) = int_map (to_int_entries (sort_entries int_key_less (canon_ints es)))
  canon (str_map es) = str_map_of (sort_entries str_key_less (canon_strs es))
  canon (boolean b) = boolean b
  canon null = null

  pub canon_items : Items → Items
  canon_items no_items = no_items
  canon_items (item v xs) = item (canon v) (canon_items xs)

  pub canon_ints : IntEntries → List (ℤ × Value)
  canon_ints no_ints = []
  canon_ints (int_entry k v es) = (k, canon v) ∷ canon_ints es

  pub canon_strs : StrEntries → List (Bytes × Value)
  canon_strs no_strs = []
  canon_strs (str_entry k v es) = (k, canon v) ∷ canon_strs es

-- An int64.
abbrev pub IsInt64 : ℤ → Type 0
IsInt64 (pos n) = n < 2 ^ 63
IsInt64 (negsuc n) = n < 2 ^ 63

-- A negative integer is a negative int64, as `NInt` makes it.
abbrev pub IsNegative : ℤ → Type 0
IsNegative (pos n) = ⊥
IsNegative (negsuc n) = n < 2 ^ 63

-- The numbers fit their types.
abbrev mutual
  pub Fits : Value → Type 0
  Fits (unsigned n) = n < 2 ^ 64
  Fits (negative n) = IsNegative n
  Fits (byte_string b) = Unit
  Fits (text_string s) = Unit
  Fits (array xs) = FitsItems xs
  Fits (int_map es) = FitsInts es
  Fits (str_map es) = FitsStrs es
  Fits (boolean b) = Unit
  Fits null = Unit

  pub FitsItems : Items → Type 0
  FitsItems no_items = Unit
  FitsItems (item v xs) = Fits v × FitsItems xs

  pub FitsInts : IntEntries → Type 0
  FitsInts no_ints = Unit
  FitsInts (int_entry k v es) = IsInt64 k × Fits v × FitsInts es

  pub FitsStrs : StrEntries → Type 0
  FitsStrs no_strs = Unit
  FitsStrs (str_entry k v es) = Fits v × FitsStrs es

-- How deep the decoder goes.
unfoldable mutual
  pub depth : Value → ℕ
  depth (array xs) = suc (depth_items xs)
  depth (int_map es) = suc (depth_ints es)
  depth (str_map es) = suc (depth_strs es)
  depth (unsigned n) = 1
  depth (negative n) = 1
  depth (byte_string b) = 1
  depth (text_string s) = 1
  depth (boolean b) = 1
  depth null = 1

  pub depth_items : Items → ℕ
  depth_items no_items = 0
  depth_items (item v xs) = max (depth v) (depth_items xs)

  pub depth_ints : IntEntries → ℕ
  depth_ints no_ints = 1
  depth_ints (int_entry k v es) = max (depth v) (depth_ints es)

  pub depth_strs : StrEntries → ℕ
  depth_strs no_strs = 1
  depth_strs (str_entry k v es) = max (depth v) (depth_strs es)
