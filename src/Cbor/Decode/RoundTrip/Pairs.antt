-- ===== src/Cbor/Decode/RoundTrip/Pairs.antt =====
-- The decoder on the entries of a map.
use aafp_go.Cbor.Decode.RoundTrip.Sorting.{map_values}
use aafp_go.Base.{
  ℕ, suc, ◌^◌, ◌≤◌, ◌≡◌, refl, ap, ◌∙◌, true, lt→ltb, Bytes, List, [], ◌∷◌, ◌++◌, length, All,
  length-append, append_assoc, ok, arith,
}
use aafp_go.Base.Int.{ℤ, pos, negsuc}
use aafp_go.Cbor.{Value, text_string, Limits, n_int, int_of}
use aafp_go.Cbor.Encode.{encode_int_key, encode_text, write_ints, write_strs}
use aafp_go.Cbor.Decode.{
  decode_pairs, decode_value, all_keys, is_int, is_text, int_pairs, str_pairs,
}
use aafp_go.Cbor.Decode.RoundTrip.Shape.{IsInt64}
use aafp_go.Cbor.Decode.RoundTrip.Parts.{Room, Reads, Reads-int_key, Reads-text}

-- An entry with the value that is read and the bytes that are written.
abbrev pub Both {ℓ} : Type ℓ → Type ℓ
Both K = K × (Value × Bytes)

abbrev pub value_of : Value × Bytes → Value
value_of (c, b) = c

abbrev pub bytes_of : Value × Bytes → Bytes
bytes_of (c, b) = b

unfoldable pub int_pairs_of : List (Both ℤ) → List (Value × Value)
int_pairs_of [] = []
int_pairs_of ((k, (c, b)) ∷ ts) = (n_int k, c) ∷ int_pairs_of ts

unfoldable pub str_pairs_of : List (Both Bytes) → List (Value × Value)
str_pairs_of [] = []
str_pairs_of ((k, (c, b)) ∷ ts) = (text_string k, c) ∷ str_pairs_of ts

int_of-n_int : (k : ℤ) → IsInt64 k → int_of (n_int k) ≡ k
unfolding int_of n_int
int_of-n_int (pos n) h = rw (lt→ltb n (2 ^ 63) h)
int_of-n_int (negsuc n) h = refl

is_int-n_int : (k : ℤ) → is_int (n_int k) ≡ true
unfolding n_int
is_int-n_int (pos n) = refl
is_int-n_int (negsuc n) = refl

module _ (limits : Limits) (len : ℕ) (room : Room limits len) (f : ℕ) where
  abbrev pub ReadsInt : Both ℤ → Type 0
  ReadsInt (k, (c, b)) = IsInt64 k × Reads limits len room (suc f) c b

  abbrev pub ReadsStr : Both Bytes → Type 0
  ReadsStr (k, (c, b)) = Reads limits len room (suc f) c b

  pub keys_int : (ts : List (Both ℤ)) → all_keys is_int (int_pairs_of ts) ≡ true
  unfolding int_pairs_of
  keys_int [] = refl
  keys_int ((k, (c, b)) ∷ ts) = rw (is_int-n_int k) (keys_int ts)

  pub pairs_int :
      (ts : List (Both ℤ)) → All ReadsInt ts → int_pairs (int_pairs_of ts) ≡ map_values value_of ts
  unfolding int_pairs_of
  pairs_int [] h = refl
  pairs_int ((k, (c, b)) ∷ ts) ((q, _), h) = λ i. (int_of-n_int k q i, c) ∷ pairs_int ts h i

  pub pairs_str : (ts : List (Both Bytes)) → str_pairs (str_pairs_of ts) ≡ map_values value_of ts
  unfolding str_pairs_of
  pairs_str [] = refl
  pairs_str ((k, (c, b)) ∷ ts) = ap (λ t. (k, c) ∷ t) (pairs_str ts)

  pub keys_str : (ts : List (Both Bytes)) → all_keys is_text (str_pairs_of ts) ≡ true
  unfolding str_pairs_of
  keys_str [] = refl
  keys_str ((k, (c, b)) ∷ ts) = keys_str ts

  pub read_ints :
      (ts : List (Both ℤ)) (rest : Bytes)
      → All ReadsInt ts
      → length (write_ints (map_values bytes_of ts) ++ rest) ≤ len
      → decode_pairs
          (decode_value limits len (suc f))
          (length ts)
          (write_ints (map_values bytes_of ts) ++ rest)
        ≡ ok (int_pairs_of ts, rest)
  unfolding decode_pairs int_pairs_of
  read_ints [] rest h fits = refl
  read_ints ((k, (c, b)) ∷ ts) rest ((q, r), h) fits =
      let key = encode_int_key k in
      let more = write_ints (map_values bytes_of ts) in
      let split : (key ++ (b ++ more)) ++ rest ≡ key ++ (b ++ (more ++ rest)) =
        append_assoc key (b ++ more) rest ∙ ap (λ t. key ++ t) (append_assoc b more rest) in
      let size = ap length split in
      let at_key = length-append key (b ++ (more ++ rest)) in
      let at_value = length-append b (more ++ rest) in
      rw split (
        rw (Reads-int_key limits len room f k q (b ++ (more ++ rest)) (omega (arith, size))) (
          rw (r (more ++ rest) (omega (arith, size, at_key)))
            (rw (read_ints ts rest h (omega (arith, size, at_key, at_value))))))

  pub read_strs :
      (ts : List (Both Bytes)) (rest : Bytes)
      → All ReadsStr ts
      → length (write_strs (map_values bytes_of ts) ++ rest) ≤ len
      → decode_pairs
          (decode_value limits len (suc f))
          (length ts)
          (write_strs (map_values bytes_of ts) ++ rest)
        ≡ ok (str_pairs_of ts, rest)
  unfolding decode_pairs str_pairs_of
  read_strs [] rest h fits = refl
  read_strs ((k, (c, b)) ∷ ts) rest (r, h) fits =
      let key = encode_text k in
      let more = write_strs (map_values bytes_of ts) in
      let split : (key ++ (b ++ more)) ++ rest ≡ key ++ (b ++ (more ++ rest)) =
        append_assoc key (b ++ more) rest ∙ ap (λ t. key ++ t) (append_assoc b more rest) in
      let size = ap length split in
      let at_key = length-append key (b ++ (more ++ rest)) in
      let at_value = length-append b (more ++ rest) in
      rw split (
        rw (Reads-text limits len room f k (b ++ (more ++ rest)) (omega (arith, size))) (
          rw (r (more ++ rest) (omega (arith, size, at_key)))
            (rw (read_strs ts rest h (omega (arith, size, at_key, at_value))))))
