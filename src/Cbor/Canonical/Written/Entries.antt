-- ===== src/Cbor/Canonical/Written/Entries.antt =====
-- The canonical reader on the entries of a map with distinct keys.
use aafp_go.Base.{
  ℕ, suc, ◌^◌, ◌≤◌, ◌==◌, ◌≡◌, ◌≢◌, refl, sym, ap, subst, ◌∙◌, Bool-cases, inl, inr, true, false,
  lt→ltb, Bytes, List, [], ◌∷◌, ◌++◌, bytes_eq, bytes_eq_iff, append-nil, length, All,
  length-append, append_assoc, ok, arith,
}
use aafp_go.Base.Int.{ℤ, pos, negsuc}
use aafp_go.Cbor.{Value, text_string, Limits, n_int, int_eq}
use aafp_go.Cbor.Encode.{encode_int_key, encode_text, write_ints, write_strs}
use aafp_go.Cbor.Encode.Unordered.{Distinct}
use aafp_go.Cbor.Canonical.{
  Seen, has_int, has_str, add_entry, read_entries, canonical_value, is_valid_utf8,
}
use aafp_go.Cbor.Decode.RoundTrip.Shape.{IsInt64}
use aafp_go.Cbor.Decode.RoundTrip.Sorting.{map_values}
use aafp_go.Cbor.Decode.RoundTrip.Pairs.{Both, value_of, bytes_of}
use aafp_go.Cbor.Decode.RoundTrip.Parts.{Room}
use aafp_go.Cbor.Canonical.Written.Parts.{Accepts, Accepts-int_key, Accepts-text}
use aafp_go.Cbor.Canonical.Written.Keys.{Distinct-fresh, Distinct-map_values}

int_eq-ne : (a b : ℤ) → a ≢ b → int_eq a b ≡ false
int_eq-ne (pos a) (pos b) h = elim (Bool-cases (a == b)) [
  | inl e ↦ absurd (h (ap pos (ground (arith, e))))
  | inr e ↦ e
]
int_eq-ne (pos a) (negsuc b) h = refl
int_eq-ne (negsuc a) (pos b) h = refl
int_eq-ne (negsuc a) (negsuc b) h = elim (Bool-cases (a == b)) [
  | inl e ↦ absurd (h (ap negsuc (ground (arith, e))))
  | inr e ↦ e
]

has_int-fresh : (k : ℤ) (es : List (ℤ × Value)) → All (λ p. p.0 ≢ k) es → has_int k es ≡ false
has_int-fresh k [] h = refl
has_int-fresh k ((j, v) ∷ es) (q, h) = rw (int_eq-ne j k q) (has_int-fresh k es h)

has_str-fresh :
    (k : Bytes) (es : List (Bytes × Value)) → All (λ p. p.0 ≢ k) es → has_str k es ≡ false
has_str-fresh k [] h = refl
has_str-fresh k ((j, v) ∷ es) (q, h) = rw (bytes_eq-ne j k q) (has_str-fresh k es h)
  where
    bytes_eq-ne : (a b : Bytes) → a ≢ b → bytes_eq a b ≡ false
    bytes_eq-ne a b h = ground (arith, bytes_eq_iff a b)

abbrev pub only_ints : List (ℤ × Value) → Seen
only_ints es = record { ints = es; strs = []; others = false }

abbrev pub only_strs : List (Bytes × Value) → Seen
only_strs es = record { ints = []; strs = es; others = false }

add_entry-int :
    (k : ℤ) (v : Value) (es : List (ℤ × Value))
    → IsInt64 k
    → All (λ p. p.0 ≢ k) es
    → add_entry (n_int k) v (only_ints es) ≡ ok (only_ints (es ++ ((k, v) ∷ [])))
unfolding add_entry n_int
add_entry-int (pos n) v es h q = rw (lt→ltb n (2 ^ 63) h) (rw (has_int-fresh (pos n) es q) refl)
add_entry-int (negsuc n) v es h q = rw (has_int-fresh (negsuc n) es q) refl

add_entry-str :
    (k : Bytes) (v : Value) (es : List (Bytes × Value))
    → All (λ p. p.0 ≢ k) es
    → add_entry (text_string k) v (only_strs es) ≡ ok (only_strs (es ++ ((k, v) ∷ [])))
unfolding add_entry
add_entry-str k v es q = rw (has_str-fresh k es q) refl

-- The bytes of entries, by how a key is written.
write_all {ℓ} : {K : Type ℓ} → (K → Bytes) → List (K × Bytes) → Bytes
write_all write [] = []
write_all write ((k, b) ∷ es) = write k ++ (b ++ write_all write es)

module _ (limits : Limits) (len : ℕ) (room : Room limits len) (f : ℕ) where
  -- One loop for both kinds of key: how a key is read, written and noted.
  module _ {K : Type 0} (key : K → Value) (write : K → Bytes) (Good : K → Type 0)
      (grow : List (K × Value) → Seen)
      (accepts_key : (k : K) → Good k → Accepts limits len room (suc f) (key k) (write k))
      (notes : (k : K) (v : Value) (es : List (K × Value))
        → Good k
        → All (λ p. p.0 ≢ k) es
        → add_entry (key k) v (grow es) ≡ ok (grow (es ++ ((k, v) ∷ [])))) where
    abbrev AcceptsEntry : Both K → Type 0
    AcceptsEntry (k, (c, b)) = Good k × Accepts limits len room (suc f) c b

    reads_on :
        (ts : List (Both K)) (es : List (K × Value)) (rest : Bytes)
        → All AcceptsEntry ts
        → Distinct (es ++ map_values value_of ts)
        → length (write_all write (map_values bytes_of ts) ++ rest) ≤ len
        → read_entries
            (canonical_value limits len (suc f))
            (length ts)
            (grow es)
            (write_all write (map_values bytes_of ts) ++ rest)
          ≡ ok (grow (es ++ map_values value_of ts), rest)
    unfolding read_entries write_all
    reads_on [] es rest h distinct fits = ap (λ t. ok (grow t, rest)) (sym (append-nil es))
    reads_on ((k, (c, b)) ∷ ts) es rest ((q, r), h) distinct fits =
        let more = write_all write (map_values bytes_of ts) in
        let split : (write k ++ (b ++ more)) ++ rest ≡ write k ++ (b ++ (more ++ rest)) =
          append_assoc (write k) (b ++ more) rest
          ∙ ap (λ t. write k ++ t) (append_assoc b more rest) in
        let size = ap length split in
        let at_key = length-append (write k) (b ++ (more ++ rest)) in
        let at_value = length-append b (more ++ rest) in
        let fresh = Distinct-fresh es (map_values value_of ts) k c distinct in
        let next = append_assoc es ((k, c) ∷ []) (map_values value_of ts) in
        rw split (
          rw (accepts_key k q (b ++ (more ++ rest)) (omega (arith, size))) (
            rw (r (more ++ rest) (omega (arith, size, at_key))) (
              rw (notes k c es q fresh) (
                reads_on ts (es ++ ((k, c) ∷ [])) rest h (subst Distinct (sym next) distinct)
                  (omega (arith, size, at_key, at_value))
                ∙ ap (λ t. ok (grow t, rest)) next))))

    read_fresh :
        (ts : List (Both K)) (rest : Bytes)
        → All AcceptsEntry ts
        → Distinct ts
        → length (write_all write (map_values bytes_of ts) ++ rest) ≤ len
        → read_entries
            (canonical_value limits len (suc f))
            (length ts)
            (grow [])
            (write_all write (map_values bytes_of ts) ++ rest)
          ≡ ok (grow (map_values value_of ts), rest)
    read_fresh ts rest h distinct fits =
        reads_on ts [] rest h (Distinct-map_values value_of ts distinct) fits

  abbrev pub AcceptsInt : Both ℤ → Type 0
  AcceptsInt (k, (c, b)) = IsInt64 k × Accepts limits len room (suc f) c b

  abbrev pub AcceptsStr : Both Bytes → Type 0
  AcceptsStr (k, (c, b)) = (is_valid_utf8 k ≡ true) × Accepts limits len room (suc f) c b

  write_ints-all : (es : List (ℤ × Bytes)) → write_ints es ≡ write_all encode_int_key es
  unfolding write_all
  write_ints-all [] = refl
  write_ints-all ((k, b) ∷ es) = ap (λ t. encode_int_key k ++ (b ++ t)) (write_ints-all es)

  write_strs-all : (es : List (Bytes × Bytes)) → write_strs es ≡ write_all encode_text es
  unfolding write_all
  write_strs-all [] = refl
  write_strs-all ((k, b) ∷ es) = ap (λ t. encode_text k ++ (b ++ t)) (write_strs-all es)

  pub read_ints :
      (ts : List (Both ℤ)) (rest : Bytes)
      → All AcceptsInt ts
      → Distinct ts
      → length (write_ints (map_values bytes_of ts) ++ rest) ≤ len
      → read_entries
          (canonical_value limits len (suc f))
          (length ts)
          (only_ints [])
          (write_ints (map_values bytes_of ts) ++ rest)
        ≡ ok (only_ints (map_values value_of ts), rest)
  read_ints ts rest h distinct = rw (write_ints-all (map_values bytes_of ts)) (
      read_fresh n_int encode_int_key IsInt64 only_ints (Accepts-int_key limits len room f)
        add_entry-int ts rest h distinct)

  pub read_strs :
      (ts : List (Both Bytes)) (rest : Bytes)
      → All AcceptsStr ts
      → Distinct ts
      → length (write_strs (map_values bytes_of ts) ++ rest) ≤ len
      → read_entries
          (canonical_value limits len (suc f))
          (length ts)
          (only_strs [])
          (write_strs (map_values bytes_of ts) ++ rest)
        ≡ ok (only_strs (map_values value_of ts), rest)
  read_strs ts rest h distinct = rw (write_strs-all (map_values bytes_of ts)) (
      read_fresh text_string encode_text (λ k. is_valid_utf8 k ≡ true) only_strs
        (Accepts-text limits len room f) (λ k v es _. add_entry-str k v es) ts rest h distinct)
