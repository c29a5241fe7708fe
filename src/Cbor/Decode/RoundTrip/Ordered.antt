-- ===== src/Cbor/Decode/RoundTrip/Ordered.antt =====
-- What comes back of a value: the same value, each of its maps in the canonical order of its keys.
use mathlib.Core.List.{Permᴰ}
use aafp_go.Base.{◌≡◌, refl, Bytes, List, [], ◌∷◌, ◌++◌, length, All, ok}
use aafp_go.Base.Int.{ℤ}
use aafp_go.Cbor.{
  Value, Items, IntEntries, StrEntries, unsigned, negative, byte_string, text_string, array,
  int_map, str_map, boolean, null, no_items, item, no_ints, int_entry, no_strs, str_entry, Limits,
  to_int_entries,
}
use aafp_go.Cbor.Encode.{encode, sort_entries, int_key_less, str_key_less}
use aafp_go.Cbor.Encode.Keys.{
  IntBefore, StrBefore, int_key_less-IntBefore, IntBefore-trans, str_key_less-StrBefore,
  StrBefore-trans,
}
use aafp_go.Cbor.Decode.{decode}
use aafp_go.Cbor.Decode.RoundTrip.Shape.{
  canon, canon_items, canon_ints, canon_strs, str_map_of, Fits, FitsItems, FitsInts, FitsStrs,
  IsInt64,
}
use aafp_go.Cbor.Decode.RoundTrip.Sorting.{Ascends, sort_entries-permutes, sort_entries-Ascends}
use aafp_go.Cbor.Decode.RoundTrip.Parts.{Room}
use aafp_go.Cbor.Decode.RoundTrip.Fuel.{cbor_decode-encode}

-- The second value is the first with the entries of each map, at every level, in the order of their
-- keys; an empty map with text keys has become one with integer keys.
abbrev mutual
  pub IsOrdering : Value → Value → Type 0
  IsOrdering (unsigned n) w = w ≡ unsigned n
  IsOrdering (negative n) w = w ≡ negative n
  IsOrdering (byte_string b) w = w ≡ byte_string b
  IsOrdering (text_string s) w = w ≡ text_string s
  IsOrdering (array xs) w = (ys : Items) × (w ≡ array ys) × ItemsOrdering xs ys
  IsOrdering (int_map es) w =
      (fs : List (ℤ × Value)) × (gs : List (ℤ × Value)) × IntsOrdering es gs
      × Permᴰ fs gs
      × Ascends IntBefore fs
      × (w ≡ int_map (to_int_entries fs))
  IsOrdering (str_map es) w =
      (fs : List (Bytes × Value)) × (gs : List (Bytes × Value)) × StrsOrdering es gs
      × Permᴰ fs gs
      × Ascends StrBefore fs
      × (w ≡ str_map_of fs)
  IsOrdering (boolean b) w = w ≡ boolean b
  IsOrdering null w = w ≡ null

  pub ItemsOrdering : Items → Items → Type 0
  ItemsOrdering no_items ys = ys ≡ no_items
  ItemsOrdering (item v xs) ys =
      (w : Value) × (zs : Items) × (ys ≡ item w zs) × IsOrdering v w × ItemsOrdering xs zs

  pub IntsOrdering : IntEntries → List (ℤ × Value) → Type 0
  IntsOrdering no_ints gs = gs ≡ []
  IntsOrdering (int_entry k v es) gs =
      (w : Value) × (hs : List (ℤ × Value)) × (gs ≡ (k, w) ∷ hs)
      × IsOrdering v w
      × IntsOrdering es hs

  pub StrsOrdering : StrEntries → List (Bytes × Value) → Type 0
  StrsOrdering no_strs gs = gs ≡ []
  StrsOrdering (str_entry k v es) gs =
      (w : Value) × (hs : List (Bytes × Value)) × (gs ≡ (k, w) ∷ hs)
      × IsOrdering v w
      × StrsOrdering es hs

keys-IsInt64 : (es : IntEntries) → FitsInts es → All (λ p. IsInt64 p.0) (canon_ints es)
unfolding canon
keys-IsInt64 no_ints h = tt
keys-IsInt64 (int_entry k v es) h = (h.0, keys-IsInt64 es h.2)

any_keys : (es : List (Bytes × Value)) → All (λ p. Unit {0}) es
any_keys [] = tt
any_keys (e ∷ es) = (tt, any_keys es)

mutual
  unfolding canon

  canon-IsOrdering : (v : Value) → Fits v → IsOrdering v (canon v)
  canon-IsOrdering (unsigned n) h = refl
  canon-IsOrdering (negative n) h = refl
  canon-IsOrdering (byte_string b) h = refl
  canon-IsOrdering (text_string s) h = refl
  canon-IsOrdering (array xs) h = (canon_items xs, refl, canon_items-Ordering xs h)
  canon-IsOrdering (int_map es) h = (
    sort_entries int_key_less (canon_ints es),
    canon_ints es,
    canon_ints-Ordering es h,
    sort_entries-permutes int_key_less (canon_ints es),
    sort_entries-Ascends int_key_less IntBefore IsInt64 int_key_less-IntBefore IntBefore-trans
        (canon_ints es) (keys-IsInt64 es h),
    refl,
  )
  canon-IsOrdering (str_map es) h = (
    sort_entries str_key_less (canon_strs es),
    canon_strs es,
    canon_strs-Ordering es h,
    sort_entries-permutes str_key_less (canon_strs es),
    sort_entries-Ascends str_key_less StrBefore (λ k. Unit {0})
        (λ a b _ _. str_key_less-StrBefore a b) StrBefore-trans (canon_strs es)
        (any_keys (canon_strs es)),
    refl,
  )
  canon-IsOrdering (boolean b) h = refl
  canon-IsOrdering null h = refl

  canon_items-Ordering : (xs : Items) → FitsItems xs → ItemsOrdering xs (canon_items xs)
  canon_items-Ordering no_items h = refl
  canon_items-Ordering (item v xs) h =
      (canon v, canon_items xs, refl, canon-IsOrdering v h.0, canon_items-Ordering xs h.1)

  canon_ints-Ordering : (es : IntEntries) → FitsInts es → IntsOrdering es (canon_ints es)
  canon_ints-Ordering no_ints h = refl
  canon_ints-Ordering (int_entry k v es) h =
      (canon v, canon_ints es, refl, canon-IsOrdering v h.1, canon_ints-Ordering es h.2)

  canon_strs-Ordering : (es : StrEntries) → FitsStrs es → StrsOrdering es (canon_strs es)
  canon_strs-Ordering no_strs h = refl
  canon_strs-Ordering (str_entry k v es) h =
      (canon v, canon_strs es, refl, canon-IsOrdering v h.0, canon_strs-Ordering es h.1)

-- `Decode` reads every value back from its encoding, whatever bytes follow it, and takes just the
-- encoding. The value comes back with the entries of each map, at every level, in order: integer keys
-- from 0 upwards and then from -1 downwards, text keys the shorter first and those of one length by
-- their bytes. An empty map with text keys comes back as an empty map with integer keys. The value's
-- numbers fit their Go types, and the input is no longer than an int and than the slices that `make`
-- can allocate.
pub decode-encode-IsOrdering :
    (limits : Limits) (v : Value) (rest : Bytes)
    → Fits v
    → Room limits (length (encode v ++ rest))
    → (decode limits (encode v ++ rest) ≡ ok (canon v, length (encode v))) × IsOrdering v (canon v)
decode-encode-IsOrdering limits v rest h room =
    (cbor_decode-encode limits v rest h room, canon-IsOrdering v h)
