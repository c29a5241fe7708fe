-- ===== src/Cbor/Decode/RoundTrip/Fuel.antt =====
-- The decoder's fuel is enough for an encoding, and the round trip.
use aafp_go.Cbor.Decode.RoundTrip.Maps.{length-encode_head-pos}
use aafp_go.Cbor.Head.{encode_head}
use aafp_go.Cbor.Decode.RoundTrip.Parts.{Room}
use aafp_go.Base.{
  ℕ, suc, ◌+◌, ◌≤◌, ◌≡◌, refl, ap, ◌∙◌, Bool, Bool-cases, inl, inr, Bytes, List, [], ◌∷◌, ◌++◌,
  length, length-append, ok, arith,
}
use aafp_go.Base.Int.{ℤ}
use aafp_go.Cbor.{
  Value, Items, IntEntries, StrEntries, unsigned, negative, byte_string, text_string, array,
  int_map, str_map, boolean, null, no_items, item, no_ints, int_entry, no_strs, str_entry, Limits,
}
use aafp_go.Cbor.Encode.{
  encode, encode_items, encode_ints, encode_strs, count_items, insert, sort_entries, int_key_less,
  str_key_less, write_ints, write_strs, encode_int_key, encode_text,
}
use aafp_go.Cbor.Decode.{decode}
use aafp_go.Cbor.Decode.RoundTrip.Shape.{canon, Fits, depth, depth_items, depth_ints, depth_strs}
use aafp_go.Cbor.Decode.RoundTrip.Values.{reads}

-- How many bytes the values of a map take.
abbrev total {ℓ} : {K : Type ℓ} → List (K × Bytes) → ℕ
total [] = 0
total ((k, b) ∷ es) = length b + total es

module _ {ℓ} {K : Type ℓ} (less : K → K → Bool) where
  total-insert :
      (k : K) (b : Bytes) (es : List (K × Bytes))
      → total (insert less (k, b) es) ≡ length b + total es
  total-insert k b [] = refl
  total-insert k b ((j, c) ∷ es) = elim (Bool-cases (less j k)) [
    | inl before ↦ rw before (omega (arith, total-insert k b es))
    | inr after ↦ rw after
  ]

  total-sort_entries : (es : List (K × Bytes)) → total (sort_entries less es) ≡ total es
  total-sort_entries [] = refl
  total-sort_entries ((k, b) ∷ es) =
      total-insert k b (sort_entries less es) ∙ ap (λ n. length b + n) (total-sort_entries es)

total-write_ints : (es : List (ℤ × Bytes)) → total es ≤ length (write_ints es)
total-write_ints [] = omega arith
total-write_ints ((k, b) ∷ es) = omega (
  arith,
  length-append (encode_int_key k) (b ++ write_ints es),
  length-append b (write_ints es),
  total-write_ints es,
)

total-write_strs : (es : List (Bytes × Bytes)) → total es ≤ length (write_strs es)
total-write_strs [] = omega arith
total-write_strs ((k, b) ∷ es) = omega (
  arith,
  length-append (encode_text k) (b ++ write_strs es),
  length-append b (write_strs es),
  total-write_strs es,
)

mutual
  unfolding encode depth

  pub depth-le : (v : Value) → depth v ≤ suc (length (encode v))
  depth-le (unsigned n) = omega arith
  depth-le (negative n) = omega arith
  depth-le (byte_string b) = omega arith
  depth-le (text_string s) = omega arith
  depth-le (array xs) = omega (
    arith,
    length-append (encode_head 0x80 (count_items xs)) (encode_items xs),
    length-encode_head-pos 0x80 (count_items xs),
    depth_items-le xs,
  )
  depth-le (int_map es) = omega (
    arith,
    length-append (encode_head 0xa0 (length (encode_ints es)))
        (write_ints (sort_entries int_key_less (encode_ints es))),
    length-encode_head-pos 0xa0 (length (encode_ints es)),
    total-write_ints (sort_entries int_key_less (encode_ints es)),
    total-sort_entries int_key_less (encode_ints es),
    depth_ints-le es,
  )
  depth-le (str_map es) = omega (
    arith,
    length-append (encode_head 0xa0 (length (encode_strs es)))
        (write_strs (sort_entries str_key_less (encode_strs es))),
    length-encode_head-pos 0xa0 (length (encode_strs es)),
    total-write_strs (sort_entries str_key_less (encode_strs es)),
    total-sort_entries str_key_less (encode_strs es),
    depth_strs-le es,
  )
  depth-le (boolean b) = omega arith
  depth-le null = omega arith

  depth_items-le : (xs : Items) → depth_items xs ≤ suc (length (encode_items xs))
  depth_items-le no_items = omega arith
  depth_items-le (item v xs) =
      omega (arith, depth-le v, depth_items-le xs, length-append (encode v) (encode_items xs))

  depth_ints-le : (es : IntEntries) → depth_ints es ≤ suc (total (encode_ints es))
  depth_ints-le no_ints = omega arith
  depth_ints-le (int_entry k v es) = omega (arith, depth-le v, depth_ints-le es)

  depth_strs-le : (es : StrEntries) → depth_strs es ≤ suc (total (encode_strs es))
  depth_strs-le no_strs = omega arith
  depth_strs-le (str_entry k v es) = omega (arith, depth-le v, depth_strs-le es)

-- `Decode` reads every value back from its canonical encoding, whatever bytes follow it, and takes
-- just the encoding: the value comes back with the entries of each map in canonical order and an
-- empty map as one with integer keys. The value's numbers fit their Go types, and the input is no
-- longer than an int and than the slices that `make` can allocate.
pub cbor_decode-encode :
    (limits : Limits) (v : Value) (rest : Bytes)
    → Fits v
    → Room limits (length (encode v ++ rest))
    → decode limits (encode v ++ rest) ≡ ok (canon v, length (encode v))
unfolding decode
cbor_decode-encode limits v rest h room =
    let input = encode v ++ rest in
    let split = length-append (encode v) rest in
    rw
      (reads limits (length input) room v h (suc (length input)) (omega (arith, depth-le v, split))
        rest (omega arith))
      (ap (λ n. ok (canon v, n)) (omega (arith, split)))
