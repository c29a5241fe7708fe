-- ===== src/Cbor/Decode/RoundTrip/Maps.antt =====
-- The decoder on the encoding of a map, whose entries are in some order.
use aafp_go.Cbor.Head.RoundTrip.{encode_head-parts}
use aafp_go.Cbor.Decode.RoundTrip.Shape.{str_map_of}
use aafp_go.Cbor.Head.{encode_head}
use aafp_go.Cbor.Decode.RoundTrip.Sorting.{map_values}
use aafp_go.Base.{
  ℕ, suc, ◌≤◌, ◌≡◌, refl, ap, ◌∙◌, le→ltb, le→leb, Bytes, List, [], ◌∷◌, ◌++◌, length, All,
  length-append, append_assoc, ok, arith,
}
use aafp_go.Base.Int.{ℤ, pos, negsuc}
use aafp_go.Cbor.{int_map, Limits, to_int_entries}
use aafp_go.Cbor.Encode.{encode_int_key, encode_text, write_ints, write_strs}
use aafp_go.Cbor.Decode.{map_of, decode_map, decode_body, decode_step, decode_value, max_int}
use aafp_go.Cbor.Decode.RoundTrip.Parts.{Room, Reads, decode_step-head}
use aafp_go.Cbor.Decode.RoundTrip.Pairs.{
  Both, value_of, bytes_of, int_pairs_of, str_pairs_of, ReadsInt, ReadsStr, read_ints, read_strs,
  keys_int, pairs_int, keys_str, pairs_str,
}

pub length-encode_head-pos : (mt v : ℕ) → 1 ≤ length (encode_head mt v)
length-encode_head-pos mt v = rw (encode_head-parts mt v) (omega arith)

length-encode_int_key-pos : (k : ℤ) → 1 ≤ length (encode_int_key k)
unfolding encode_int_key
length-encode_int_key-pos (pos n) = length-encode_head-pos 0x00 n
length-encode_int_key-pos (negsuc n) = length-encode_head-pos 0x20 n

pub length-write_ints-le :
    (ts : List (Both ℤ)) → length ts ≤ length (write_ints (map_values bytes_of ts))
length-write_ints-le [] = omega arith
length-write_ints-le ((k, (c, b)) ∷ ts) =
    let more = write_ints (map_values bytes_of ts) in
    omega (
      arith,
      length-encode_int_key-pos k,
      length-append (encode_int_key k) (b ++ more),
      length-append b more,
      length-write_ints-le ts,
    )

pub length-write_strs-le :
    (ts : List (Both Bytes)) → length ts ≤ length (write_strs (map_values bytes_of ts))
unfolding encode_text
length-write_strs-le [] = omega arith
length-write_strs-le ((k, (c, b)) ∷ ts) =
    let more = write_strs (map_values bytes_of ts) in
    omega (
      arith,
      length-encode_head-pos 0x60 (length k),
      length-append (encode_head 0x60 (length k)) k,
      length-append (encode_text k) (b ++ more),
      length-append b more,
      length-write_strs-le ts,
    )

map_of-ints :
    (limits : Limits) (len : ℕ) (room : Room limits len) (f : ℕ) (ts : List (Both ℤ))
    → All (ReadsInt limits len room f) ts
    → map_of (int_pairs_of ts) ≡ ok (int_map (to_int_entries (map_values value_of ts)))
unfolding map_of
map_of-ints limits len room f ts h =
    rw (keys_int limits len room f ts)
      (ap (λ t. ok (int_map (to_int_entries t))) (pairs_int limits len room f ts h))

map_of-strs :
    (limits : Limits) (len : ℕ) (room : Room limits len) (f : ℕ) (ts : List (Both Bytes))
    → map_of (str_pairs_of ts) ≡ ok (str_map_of (map_values value_of ts))
unfolding map_of str_pairs_of
map_of-strs limits len room f [] = refl
map_of-strs limits len room f ((k, (c, b)) ∷ ts) =
    rw (keys_str limits len room f ts)
      (ap (λ t. ok (str_map_of ((k, c) ∷ t))) (pairs_str limits len room f ts))

module _ (limits : Limits) (len : ℕ) (room : Room limits len) (f : ℕ) where
  pub Reads-int_map :
      (ts : List (Both ℤ))
      → All (ReadsInt limits len room f) ts
      → Reads limits len room
          (suc (suc f))
          (int_map (to_int_entries (map_values value_of ts)))
          (encode_head 0xa0 (length ts) ++ write_ints (map_values bytes_of ts))
  unfolding decode_value decode_body decode_map
  Reads-int_map ts h rest fits =
      let head = encode_head 0xa0 (length ts) in
      let body = write_ints (map_values bytes_of ts) in
      let size = ap length (append_assoc head body rest) in
      let behind : length (body ++ rest) ≤ len =
        omega (arith, size, length-append head (body ++ rest)) in
      let many : length ts ≤ length (body ++ rest) =
        omega (arith, length-append body rest, length-write_ints-le ts) in
      ap (decode_step limits len (decode_value limits len (suc f))) (append_assoc head body rest)
      ∙ decode_step-head limits len room (decode_value limits len (suc f)) 5 (length ts)
          (body ++ rest) (omega arith) (omega (arith, room.is_int_len))
      ∙ rw
          (
            le→leb (length ts) max_int (omega (arith, room.is_int_len)),
            le→ltb (length (body ++ rest)) (length ts) many,
            le→ltb limits.max_pairs (length ts) (omega (arith, room.pairs_fit)),
          )
          (rw (read_ints limits len room f ts rest h behind)
            (rw (map_of-ints limits len room f ts h)))

  pub Reads-str_map :
      (ts : List (Both Bytes))
      → All (ReadsStr limits len room f) ts
      → Reads limits len room
          (suc (suc f))
          (str_map_of (map_values value_of ts))
          (encode_head 0xa0 (length ts) ++ write_strs (map_values bytes_of ts))
  unfolding decode_value decode_body decode_map
  Reads-str_map ts h rest fits =
      let head = encode_head 0xa0 (length ts) in
      let body = write_strs (map_values bytes_of ts) in
      let size = ap length (append_assoc head body rest) in
      let behind : length (body ++ rest) ≤ len =
        omega (arith, size, length-append head (body ++ rest)) in
      let many : length ts ≤ length (body ++ rest) =
        omega (arith, length-append body rest, length-write_strs-le ts) in
      ap (decode_step limits len (decode_value limits len (suc f))) (append_assoc head body rest)
      ∙ decode_step-head limits len room (decode_value limits len (suc f)) 5 (length ts)
          (body ++ rest) (omega arith) (omega (arith, room.is_int_len))
      ∙ rw
          (
            le→leb (length ts) max_int (omega (arith, room.is_int_len)),
            le→ltb (length (body ++ rest)) (length ts) many,
            le→ltb limits.max_pairs (length ts) (omega (arith, room.pairs_fit)),
          )
          (rw (read_strs limits len room f ts rest h behind)
            (rw (map_of-strs limits len room f ts)))
