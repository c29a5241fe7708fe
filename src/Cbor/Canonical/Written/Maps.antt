-- ===== src/Cbor/Canonical/Written/Maps.antt =====
-- The canonical reader on written arrays and maps, given how it reads their parts.
use aafp_go.Base.{
  ℕ, suc, ◌≤◌, ◌≡◌, refl, ap, ◌∙◌, le→ltb, Bytes, List, [], ◌∷◌, ◌++◌, length, All, length-append,
  append_assoc, ok, arith,
}
use aafp_go.Base.Int.{ℤ}
use aafp_go.Cbor.{Value, Items, array, int_map, to_int_entries, Limits}
use aafp_go.Cbor.Head.{encode_head}
use aafp_go.Cbor.Encode.{encode_items, count_items, write_ints, write_strs}
use aafp_go.Cbor.Encode.Unordered.{Distinct}
use aafp_go.Cbor.Decode.{decode_items}
use aafp_go.Cbor.Canonical.{
  canonical_value, canonical_body, canonical_array, canonical_map, canonical_step, map_of_seen,
}
use aafp_go.Cbor.Decode.RoundTrip.Sorting.{map_values}
use aafp_go.Cbor.Decode.RoundTrip.Shape.{canon_items, str_map_of}
use aafp_go.Cbor.Decode.RoundTrip.Parts.{Room}
use aafp_go.Cbor.Decode.RoundTrip.Pairs.{Both, value_of, bytes_of}
use aafp_go.Cbor.Decode.RoundTrip.Maps.{length-write_ints-le, length-write_strs-le}
use aafp_go.Cbor.Decode.RoundTrip.Values.{count_items-le}
use aafp_go.Cbor.Canonical.Written.Parts.{Accepts, canonical_step-head, behind_head}
use aafp_go.Cbor.Canonical.Written.Entries.{only_strs, AcceptsInt, AcceptsStr, read_ints, read_strs}

map_of_seen-strs : (es : List (Bytes × Value)) → map_of_seen (only_strs es) ≡ ok (str_map_of es)
unfolding map_of_seen
map_of_seen-strs [] = refl
map_of_seen-strs (e ∷ es) = refl

module _ (limits : Limits) (len : ℕ) (room : Room limits len) where
  pub Accepts-array :
      (f : ℕ) (xs : Items)
      → ((rest : Bytes)
          → length (encode_items xs ++ rest) ≤ len
          → decode_items (canonical_value limits len f) (count_items xs) (encode_items xs ++ rest)
            ≡ ok (canon_items xs, rest))
      → Accepts limits len room
          (suc f)
          (array (canon_items xs))
          (encode_head 0x80 (count_items xs) ++ encode_items xs)
  unfolding canonical_value canonical_body canonical_array
  Accepts-array f xs read rest fits =
      let head = encode_head 0x80 (count_items xs) in
      let body = encode_items xs in
      let behind = behind_head limits len room 0x80 (count_items xs) body rest fits in
      let many : count_items xs ≤ length (body ++ rest) =
        omega (arith, length-append body rest, count_items-le xs) in
      ap (canonical_step limits len (canonical_value limits len f)) (append_assoc head body rest)
      ∙ canonical_step-head limits len room (canonical_value limits len f) 4 (count_items xs)
          (body ++ rest) (omega arith) (omega (arith, room.is_int_len))
      ∙ rw (le→ltb limits.max_values (count_items xs) (omega (arith, room.values_fit)))
          (rw (read rest behind))

  pub Accepts-int_map :
      (f : ℕ) (ts : List (Both ℤ))
      → All (AcceptsInt limits len room f) ts
      → Distinct ts
      → Accepts limits len room
          (suc (suc f))
          (int_map (to_int_entries (map_values value_of ts)))
          (encode_head 0xa0 (length ts) ++ write_ints (map_values bytes_of ts))
  unfolding canonical_value canonical_body canonical_map map_of_seen
  Accepts-int_map f ts h distinct rest fits =
      let head = encode_head 0xa0 (length ts) in
      let body = write_ints (map_values bytes_of ts) in
      let behind = behind_head limits len room 0xa0 (length ts) body rest fits in
      ap (canonical_step limits len (canonical_value limits len (suc f)))
        (append_assoc head body rest)
      ∙ canonical_step-head limits len room (canonical_value limits len (suc f)) 5 (length ts)
          (body ++ rest) (omega arith)
          (omega (arith, length-append body rest, length-write_ints-le ts, room.is_int_len))
      ∙ rw (read_ints limits len room f ts rest h distinct behind)

  pub Accepts-str_map :
      (f : ℕ) (ts : List (Both Bytes))
      → All (AcceptsStr limits len room f) ts
      → Distinct ts
      → Accepts limits len room
          (suc (suc f))
          (str_map_of (map_values value_of ts))
          (encode_head 0xa0 (length ts) ++ write_strs (map_values bytes_of ts))
  unfolding canonical_value canonical_body canonical_map
  Accepts-str_map f ts h distinct rest fits =
      let head = encode_head 0xa0 (length ts) in
      let body = write_strs (map_values bytes_of ts) in
      let behind = behind_head limits len room 0xa0 (length ts) body rest fits in
      ap (canonical_step limits len (canonical_value limits len (suc f)))
        (append_assoc head body rest)
      ∙ canonical_step-head limits len room (canonical_value limits len (suc f)) 5 (length ts)
          (body ++ rest) (omega arith)
          (omega (arith, length-append body rest, length-write_strs-le ts, room.is_int_len))
      ∙ rw (read_strs limits len room f ts rest h distinct behind)
          (rw (map_of_seen-strs (map_values value_of ts)))
