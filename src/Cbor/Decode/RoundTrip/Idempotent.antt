-- ===== src/Cbor/Decode/RoundTrip/Idempotent.antt =====
-- Encoding again what was decoded: sorting is idempotent, so the bytes are the same.
use aafp_go.Base.{
  suc, ◌≡◌, refl, sym, ap, ◌∙◌, Bool, true, false, Bool-cases, inl, inr, arith, Bytes, List, [],
  ◌∷◌,
}
use aafp_go.Base.Int.{ℤ}
use aafp_go.Cbor.{
  Value, Items, IntEntries, StrEntries, unsigned, negative, byte_string, text_string, array,
  int_map, str_map, boolean, null, no_items, item, no_ints, int_entry, no_strs, str_entry,
  to_int_entries, to_str_entries,
}
use aafp_go.Cbor.Encode.{
  encode, encode_items, encode_ints, encode_strs, count_items, insert, sort_entries, bytes_lt,
  int_key_less, str_key_less, encode_int_key, write_int_map, write_str_map,
}
use aafp_go.Cbor.Decode.RoundTrip.Shape.{canon, canon_items, canon_ints, canon_strs, str_map_of}
use aafp_go.Cbor.Decode.RoundTrip.Sorting.{map_values, sort_entries-map_values, length-sort_entries}

module _ {ℓ κ} {K : Type ℓ} {V : Type κ} (less : K → K → Bool)
    (asym : (a b : K) → less a b ≡ true → less b a ≡ false) where
  -- No entry belongs before the one ahead of it.
  abbrev Follows : K → List (K × V) → Type 0
  Follows k [] = Unit
  Follows k ((j, w) ∷ es) = less j k ≡ false

  abbrev IsSorted : List (K × V) → Type 0
  IsSorted [] = Unit
  IsSorted ((k, v) ∷ es) = Follows k es × IsSorted es

  insert-Follows :
      (j k : K) (v : V) (es : List (K × V))
      → less k j ≡ false
      → Follows j es
      → Follows j (insert less (k, v) es)
  insert-Follows j k v [] first h = first
  insert-Follows j k v ((i, w) ∷ es) first h = elim (Bool-cases (less i k)) [
    | inl before ↦ rw before h
    | inr after ↦ rw after first
  ]

  insert-IsSorted :
      (k : K) (v : V) (es : List (K × V)) → IsSorted es → IsSorted (insert less (k, v) es)
  insert-IsSorted k v [] h = (tt, tt)
  insert-IsSorted k v ((j, w) ∷ es) (first, h) = elim (Bool-cases (less j k)) [
    | inl before ↦
        rw before (insert-Follows j k v es (asym j k before) first, insert-IsSorted k v es h)
    | inr after ↦ rw after (after, (first, h))
  ]

  sort_entries-IsSorted : (es : List (K × V)) → IsSorted (sort_entries less es)
  sort_entries-IsSorted [] = tt
  sort_entries-IsSorted ((k, v) ∷ es) =
      insert-IsSorted k v (sort_entries less es) (sort_entries-IsSorted es)

  insert_first :
      (k : K) (v : V) (es : List (K × V)) → Follows k es → insert less (k, v) es ≡ (k, v) ∷ es
  insert_first k v [] h = refl
  insert_first k v ((j, w) ∷ es) h = rw h refl

  sort_entries_sorted : (es : List (K × V)) → IsSorted es → sort_entries less es ≡ es
  sort_entries_sorted [] h = refl
  sort_entries_sorted ((k, v) ∷ es) (first, h) =
      ap (insert less (k, v)) (sort_entries_sorted es h) ∙ insert_first k v es first

  pub sort_entries_idempotent :
      (es : List (K × V)) → sort_entries less (sort_entries less es) ≡ sort_entries less es
  sort_entries_idempotent es = sort_entries_sorted (sort_entries less es) (sort_entries-IsSorted es)

pub bytes_lt_asym : (a b : Bytes) → bytes_lt a b ≡ true → bytes_lt b a ≡ false
bytes_lt_asym [] [] h = refl
bytes_lt_asym [] (y ∷ b) h = refl
bytes_lt_asym (x ∷ a) [] h = cc
bytes_lt_asym (x ∷ a) (y ∷ b) h = ground (arith, bytes_lt_asym a b)

int_key_less_asym : (a b : ℤ) → int_key_less a b ≡ true → int_key_less b a ≡ false
unfolding int_key_less
int_key_less_asym a b h = bytes_lt_asym (encode_int_key a) (encode_int_key b) h

pub str_key_less_asym : (a b : Bytes) → str_key_less a b ≡ true → str_key_less b a ≡ false
unfolding str_key_less
str_key_less_asym a b h = ground (arith, bytes_lt_asym a b)

write_int_map_sorted :
    (es : List (ℤ × Bytes)) → write_int_map (sort_entries int_key_less es) ≡ write_int_map es
write_int_map_sorted es =
    rw
      (
        length-sort_entries int_key_less es,
        sort_entries_idempotent int_key_less int_key_less_asym es,
      )
      refl

pub write_str_map_sorted :
    (es : List (Bytes × Bytes)) → write_str_map (sort_entries str_key_less es) ≡ write_str_map es
write_str_map_sorted es =
    rw
      (
        length-sort_entries str_key_less es,
        sort_entries_idempotent str_key_less str_key_less_asym es,
      )
      refl

encode_ints-to_int_entries :
    (es : List (ℤ × Value)) → encode_ints (to_int_entries es) ≡ map_values encode es
unfolding encode
encode_ints-to_int_entries [] = refl
encode_ints-to_int_entries ((k, v) ∷ es) =
    ap (λ t. (k, encode v) ∷ t) (encode_ints-to_int_entries es)

pub encode_strs-to_str_entries :
    (es : List (Bytes × Value)) → encode_strs (to_str_entries es) ≡ map_values encode es
unfolding encode
encode_strs-to_str_entries [] = refl
encode_strs-to_str_entries ((k, v) ∷ es) =
    ap (λ t. (k, encode v) ∷ t) (encode_strs-to_str_entries es)

encode-str_map_of :
    (es : List (Bytes × Value)) → encode (str_map_of es) ≡ write_str_map (map_values encode es)
unfolding encode
encode-str_map_of [] = refl
encode-str_map_of (e ∷ es) = ap write_str_map (encode_strs-to_str_entries (e ∷ es))

count_items-canon : (xs : Items) → count_items (canon_items xs) ≡ count_items xs
unfolding canon
count_items-canon no_items = refl
count_items-canon (item v xs) = ap suc (count_items-canon xs)

mutual
  unfolding encode canon

  -- The value that `Decode` gives back for an encoding has that encoding again.
  pub encode-canon : (v : Value) → encode (canon v) ≡ encode v
  encode-canon (unsigned n) = refl
  encode-canon (negative n) = refl
  encode-canon (byte_string b) = refl
  encode-canon (text_string s) = refl
  encode-canon (array xs) = rw (count_items-canon xs, encode_items-canon xs) refl
  encode-canon (int_map es) =
      ap write_int_map (encode_ints-to_int_entries (sort_entries int_key_less (canon_ints es)))
      ∙ ap write_int_map (sym (sort_entries-map_values encode int_key_less (canon_ints es)))
      ∙ write_int_map_sorted (map_values encode (canon_ints es))
      ∙ ap write_int_map (encode_ints-canon es)
  encode-canon (str_map es) =
      encode-str_map_of (sort_entries str_key_less (canon_strs es))
      ∙ ap write_str_map (sym (sort_entries-map_values encode str_key_less (canon_strs es)))
      ∙ write_str_map_sorted (map_values encode (canon_strs es))
      ∙ ap write_str_map (encode_strs-canon es)
  encode-canon (boolean b) = refl
  encode-canon null = refl

  encode_items-canon : (xs : Items) → encode_items (canon_items xs) ≡ encode_items xs
  encode_items-canon no_items = refl
  encode_items-canon (item v xs) = rw (encode-canon v, encode_items-canon xs) refl

  encode_ints-canon : (es : IntEntries) → map_values encode (canon_ints es) ≡ encode_ints es
  encode_ints-canon no_ints = refl
  encode_ints-canon (int_entry k v es) = rw (encode-canon v, encode_ints-canon es) refl

  encode_strs-canon : (es : StrEntries) → map_values encode (canon_strs es) ≡ encode_strs es
  encode_strs-canon no_strs = refl
  encode_strs-canon (str_entry k v es) = rw (encode-canon v, encode_strs-canon es) refl
