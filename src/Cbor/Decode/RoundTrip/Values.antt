-- ===== src/Cbor/Decode/RoundTrip/Values.antt =====
-- Every value that fits is read back from its encoding.
use aafp_go.Base.{
  ℕ, zero, suc, ◌<◌, ◌≤◌, ◌≡◌, refl, sym, ap, ◌∙◌, subst, true, false, le→ltb, le→leb, lt→ltb,
  bit_and, Bytes, List, [], ◌∷◌, ◌++◌, length, All, length-append, append_assoc, ok, arith,
}
use aafp_go.Base.Int.{ℤ, pos, negsuc}
use aafp_go.Cbor.{
  Value, Items, IntEntries, StrEntries, unsigned, negative, byte_string, text_string, array,
  int_map, str_map, boolean, null, no_items, item, no_ints, int_entry, no_strs, str_entry,
  to_int_entries, Limits,
}
use aafp_go.Cbor.Head.{encode_head, read_arg}
use aafp_go.Cbor.Encode.{
  encode, encode_items, encode_ints, encode_strs, count_items, sort_entries, int_key_less,
  str_key_less, write_ints, write_strs, encode_text,
}
use aafp_go.Cbor.Decode.{
  decode_items, decode_array, decode_body, decode_step, decode_value, simple_value, max_int,
}
use aafp_go.Cbor.Decode.RoundTrip.Sorting.{
  map_values, sort_entries-map_values, All-sort_entries, length-sort_entries,
}
use aafp_go.Cbor.Decode.RoundTrip.Shape.{
  canon, canon_items, canon_ints, canon_strs, Fits, FitsItems, FitsInts, FitsStrs, depth,
  depth_items, depth_ints, depth_strs, str_map_of,
}
use aafp_go.Cbor.Decode.RoundTrip.Parts.{
  Room, Reads, decode_step-head, Reads-unsigned, Reads-negative, Reads-bytes, Reads-text,
}
use aafp_go.Cbor.Decode.RoundTrip.Pairs.{Both, value_of, bytes_of, ReadsInt, ReadsStr}
use aafp_go.Cbor.Decode.RoundTrip.Maps.{Reads-int_map, Reads-str_map, length-encode_head-pos}

-- Each entry with the value that is read back and the bytes that are written.
unfoldable pub both_ints : IntEntries → List (Both ℤ)
both_ints no_ints = []
both_ints (int_entry k v es) = (k, (canon v, encode v)) ∷ both_ints es

unfoldable pub both_strs : StrEntries → List (Both Bytes)
both_strs no_strs = []
both_strs (str_entry k v es) = (k, (canon v, encode v)) ∷ both_strs es

values_ints : (es : IntEntries) → map_values value_of (both_ints es) ≡ canon_ints es
unfolding both_ints canon
values_ints no_ints = refl
values_ints (int_entry k v es) = ap (λ t. (k, canon v) ∷ t) (values_ints es)

bytes_ints : (es : IntEntries) → map_values bytes_of (both_ints es) ≡ encode_ints es
unfolding both_ints encode
bytes_ints no_ints = refl
bytes_ints (int_entry k v es) = ap (λ t. (k, encode v) ∷ t) (bytes_ints es)

values_strs : (es : StrEntries) → map_values value_of (both_strs es) ≡ canon_strs es
unfolding both_strs canon
values_strs no_strs = refl
values_strs (str_entry k v es) = ap (λ t. (k, canon v) ∷ t) (values_strs es)

bytes_strs : (es : StrEntries) → map_values bytes_of (both_strs es) ≡ encode_strs es
unfolding both_strs encode
bytes_strs no_strs = refl
bytes_strs (str_entry k v es) = ap (λ t. (k, encode v) ∷ t) (bytes_strs es)

length-map_values {ℓ κ μ} :
    {K : Type ℓ} {V : Type κ} {W : Type μ} (g : V → W) (es : List (K × V))
    → length (map_values g es) ≡ length es
length-map_values g [] = refl
length-map_values g ((k, v) ∷ es) = ap suc (length-map_values g es)

-- The sorted triples give the written map and the map that is read.
pub int_map_written :
    (es : IntEntries)
    → let ts = sort_entries int_key_less (both_ints es) in
      encode_head 0xa0 (length ts) ++ write_ints (map_values bytes_of ts) ≡ encode (int_map es)
unfolding encode
int_map_written es =
    let less = int_key_less in
    let order =
      sym (sort_entries-map_values bytes_of less (both_ints es))
      ∙ ap (sort_entries less) (bytes_ints es) in
    let many =
      length-sort_entries less (both_ints es)
      ∙ sym (length-map_values bytes_of (both_ints es))
      ∙ ap length (bytes_ints es) in
    λ i. encode_head 0xa0 (many i) ++ write_ints (order i)

pub int_map_read :
    (es : IntEntries)
    → int_map (to_int_entries (map_values value_of (sort_entries int_key_less (both_ints es))))
      ≡ canon (int_map es)
unfolding canon
int_map_read es =
    let less = int_key_less in
    ap (λ t. int_map (to_int_entries t))
      (sym (sort_entries-map_values value_of less (both_ints es))
        ∙ ap (sort_entries less) (values_ints es))

pub str_map_written :
    (es : StrEntries)
    → let ts = sort_entries str_key_less (both_strs es) in
      encode_head 0xa0 (length ts) ++ write_strs (map_values bytes_of ts) ≡ encode (str_map es)
unfolding encode
str_map_written es =
    let less = str_key_less in
    let order =
      sym (sort_entries-map_values bytes_of less (both_strs es))
      ∙ ap (sort_entries less) (bytes_strs es) in
    let many =
      length-sort_entries less (both_strs es)
      ∙ sym (length-map_values bytes_of (both_strs es))
      ∙ ap length (bytes_strs es) in
    λ i. encode_head 0xa0 (many i) ++ write_strs (order i)

pub str_map_read :
    (es : StrEntries)
    → str_map_of (map_values value_of (sort_entries str_key_less (both_strs es)))
      ≡ canon (str_map es)
unfolding canon
str_map_read es =
    let less = str_key_less in
    ap str_map_of (
      sym (sort_entries-map_values value_of less (both_strs es))
      ∙ ap (sort_entries less) (values_strs es))

pub encode-pos : (v : Value) → 1 ≤ length (encode v)
unfolding encode encode_text
encode-pos (unsigned n) = length-encode_head-pos 0x00 n
encode-pos (negative (pos n)) = length-encode_head-pos 0x20 _
encode-pos (negative (negsuc n)) = length-encode_head-pos 0x20 _
encode-pos (byte_string b) =
    omega
      (arith, length-encode_head-pos 0x40 (length b), length-append (encode_head 0x40 (length b)) b)
encode-pos (text_string b) =
    omega
      (arith, length-encode_head-pos 0x60 (length b), length-append (encode_head 0x60 (length b)) b)
encode-pos (array xs) = omega (
  arith,
  length-encode_head-pos 0x80 (count_items xs),
  length-append (encode_head 0x80 (count_items xs)) (encode_items xs),
)
encode-pos (int_map es) =
    let es' = encode_ints es in
    omega (
      arith,
      length-encode_head-pos 0xa0 (length es'),
      length-append (encode_head 0xa0 (length es')) (write_ints (sort_entries int_key_less es')),
    )
encode-pos (str_map es) =
    let es' = encode_strs es in
    omega (
      arith,
      length-encode_head-pos 0xa0 (length es'),
      length-append (encode_head 0xa0 (length es')) (write_strs (sort_entries str_key_less es')),
    )
encode-pos (boolean b) = omega arith
encode-pos null = omega arith

pub count_items-le : (xs : Items) → count_items xs ≤ length (encode_items xs)
unfolding encode
count_items-le no_items = omega arith
count_items-le (item v xs) =
    omega (arith, encode-pos v, length-append (encode v) (encode_items xs), count_items-le xs)

pub depth_ints-pos : (es : IntEntries) → 1 ≤ depth_ints es
unfolding depth
depth_ints-pos no_ints = omega arith
depth_ints-pos (int_entry k v es) = omega (arith, depth_ints-pos es)

pub depth_strs-pos : (es : StrEntries) → 1 ≤ depth_strs es
unfolding depth
depth_strs-pos no_strs = omega arith
depth_strs-pos (str_entry k v es) = omega (arith, depth_strs-pos es)

module _ (limits : Limits) (len : ℕ) (room : Room limits len) where
  Reads-array :
      (f : ℕ) (xs : Items)
      → ((rest : Bytes)
          → length (encode_items xs ++ rest) ≤ len
          → decode_items (decode_value limits len f) (count_items xs) (encode_items xs ++ rest)
            ≡ ok (canon_items xs, rest))
      → Reads limits len room
          (suc f)
          (array (canon_items xs))
          (encode_head 0x80 (count_items xs) ++ encode_items xs)
  unfolding decode_value decode_body decode_array
  Reads-array f xs read rest fits =
      let head = encode_head 0x80 (count_items xs) in
      let body = encode_items xs in
      let size = ap length (append_assoc head body rest) in
      let behind : length (body ++ rest) ≤ len =
        omega (arith, size, length-append head (body ++ rest)) in
      let many : count_items xs ≤ length (body ++ rest) =
        omega (arith, length-append body rest, count_items-le xs) in
      ap (decode_step limits len (decode_value limits len f)) (append_assoc head body rest)
      ∙ decode_step-head limits len room (decode_value limits len f) 4 (count_items xs)
          (body ++ rest) (omega arith) (omega (arith, room.is_int_len))
      ∙ rw
          (
            le→leb (count_items xs) max_int (omega (arith, room.is_int_len)),
            le→ltb (length (body ++ rest)) (count_items xs) many,
            le→ltb limits.max_values (count_items xs) (omega (arith, room.values_fit)),
          )
          (rw (read rest behind))

  decode_items-item :
      (f : ℕ) (v : Value) (xs : Items)
      → Reads limits len room f (canon v) (encode v)
      → ((rest : Bytes)
          → length (encode_items xs ++ rest) ≤ len
          → decode_items (decode_value limits len f) (count_items xs) (encode_items xs ++ rest)
            ≡ ok (canon_items xs, rest))
      → (rest : Bytes) → length ((encode v ++ encode_items xs) ++ rest) ≤ len
      → decode_items
          (decode_value limits len f)
          (suc (count_items xs))
          ((encode v ++ encode_items xs) ++ rest)
        ≡ ok (item (canon v) (canon_items xs), rest)
  unfolding decode_items
  decode_items-item f v xs read more rest fits =
      let split = append_assoc (encode v) (encode_items xs) rest in
      let size = ap length split in
      rw split (
        rw (read (encode_items xs ++ rest) (omega (arith, size))) (
          rw (more rest (omega (arith, size, length-append (encode v) (encode_items xs ++ rest))))))

  Reads-simple :
      (f ai : ℕ) (v : Value) (b : ℕ)
      → bit_and b 0xe0 ≡ 0xe0
      → bit_and b 0x1f ≡ ai
      → ai < 24
      → simple_value ai ≡ ok v
      → Reads limits len room (suc f) v (b ∷ [])
  unfolding decode_value decode_step decode_body read_arg
  Reads-simple f ai v b major low small value rest fits =
      rw (major, low) (rw (lt→ltb ai 24 small) (rw value))

  Reads-canon_ints :
      (f : ℕ) (es : IntEntries)
      → All (ReadsInt limits len room f) (both_ints es)
      → Reads limits len room (suc (suc f)) (canon (int_map es)) (encode (int_map es))
  Reads-canon_ints f es h =
      let ts = sort_entries int_key_less (both_ints es) in
      let sorted = All-sort_entries int_key_less (ReadsInt limits len room f) (both_ints es) h in
      subst (λ b. Reads limits len room (suc (suc f)) (canon (int_map es)) b) (int_map_written es)
        (subst
          (λ c.
            Reads limits len room (suc (suc f)) c
              (encode_head 0xa0 (length ts) ++ write_ints (map_values bytes_of ts)))
          (int_map_read es) (Reads-int_map limits len room f ts sorted))

  Reads-canon_strs :
      (f : ℕ) (es : StrEntries)
      → All (ReadsStr limits len room f) (both_strs es)
      → Reads limits len room (suc (suc f)) (canon (str_map es)) (encode (str_map es))
  Reads-canon_strs f es h =
      let ts = sort_entries str_key_less (both_strs es) in
      let sorted = All-sort_entries str_key_less (ReadsStr limits len room f) (both_strs es) h in
      subst (λ b. Reads limits len room (suc (suc f)) (canon (str_map es)) b) (str_map_written es)
        (subst
          (λ c.
            Reads limits len room (suc (suc f)) c
              (encode_head 0xa0 (length ts) ++ write_strs (map_values bytes_of ts)))
          (str_map_read es) (Reads-str_map limits len room f ts sorted))

  mutual
    unfolding encode canon depth both_ints both_strs decode_items simple_value

    pub reads :
        (v : Value) → Fits v → (f : ℕ) → depth v ≤ f → Reads limits len room f (canon v) (encode v)
    reads (unsigned n) h zero d = absurd (omega arith)
    reads (unsigned n) h (suc f) d = Reads-unsigned limits len room f n h
    reads (negative (pos n)) h f d = absurd h
    reads (negative (negsuc n)) h zero d = absurd (omega arith)
    reads (negative (negsuc n)) h (suc f) d = Reads-negative limits len room f n h
    reads (byte_string b) h zero d = absurd (omega arith)
    reads (byte_string b) h (suc f) d = Reads-bytes limits len room f b
    reads (text_string b) h zero d = absurd (omega arith)
    reads (text_string b) h (suc f) d = Reads-text limits len room f b
    reads (array xs) h zero d = absurd (omega arith)
    reads (array xs) h (suc f) d = Reads-array f xs (reads_items xs h f (omega arith))
    reads (int_map es) h zero d = absurd (omega arith)
    reads (int_map es) h (suc zero) d = absurd (omega (arith, depth_ints-pos es))
    reads (int_map es) h (suc (suc f)) d = Reads-canon_ints f es (reads_ints es h f (omega arith))
    reads (str_map es) h zero d = absurd (omega arith)
    reads (str_map es) h (suc zero) d = absurd (omega (arith, depth_strs-pos es))
    reads (str_map es) h (suc (suc f)) d = Reads-canon_strs f es (reads_strs es h f (omega arith))
    reads (boolean b) h zero d = absurd (omega arith)
    reads (boolean true) h (suc f) d =
        Reads-simple f 21 (boolean true) 0xf5 refl refl (omega arith) refl
    reads (boolean false) h (suc f) d =
        Reads-simple f 20 (boolean false) 0xf4 refl refl (omega arith) refl
    reads null h zero d = absurd (omega arith)
    reads null h (suc f) d = Reads-simple f 22 null 0xf6 refl refl (omega arith) refl

    reads_items :
        (xs : Items)
        → FitsItems xs
        → (f : ℕ) → depth_items xs ≤ f
        → (rest : Bytes) → length (encode_items xs ++ rest) ≤ len
        → decode_items (decode_value limits len f) (count_items xs) (encode_items xs ++ rest)
          ≡ ok (canon_items xs, rest)
    reads_items no_items h f d rest fits = refl
    reads_items (item v xs) (h, k) f d rest fits =
        decode_items-item f v xs (reads v h f (omega arith)) (reads_items xs k f (omega arith)) rest
          fits

    reads_ints :
        (es : IntEntries)
        → FitsInts es
        → (f : ℕ) → depth_ints es ≤ suc f
        → All (ReadsInt limits len room f) (both_ints es)
    reads_ints no_ints h f d = tt
    reads_ints (int_entry k v es) (q, h, r) f d =
        ((q, reads v h (suc f) (omega arith)), reads_ints es r f (omega arith))

    reads_strs :
        (es : StrEntries)
        → FitsStrs es
        → (f : ℕ) → depth_strs es ≤ suc f
        → All (ReadsStr limits len room f) (both_strs es)
    reads_strs no_strs h f d = tt
    reads_strs (str_entry k v es) (h, r) f d =
        (reads v h (suc f) (omega arith), reads_strs es r f (omega arith))
