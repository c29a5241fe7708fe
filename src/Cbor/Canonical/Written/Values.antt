-- ===== src/Cbor/Canonical/Written/Values.antt =====
-- `CheckCanonical` accepts what `Encode` writes.
use aafp_go.Base.{
  ℕ, zero, suc, ◌-◌, ◌==◌, ◌≤◌, ◌≡◌, refl, ap, subst, true, false, Bytes, [], ◌++◌, length, All,
  length-append, append_assoc, append-nil, ok, arith,
}
use aafp_go.Base.Int.{pos, negsuc}
use aafp_go.Cbor.{
  Value, Items, IntEntries, StrEntries, unsigned, negative, byte_string, text_string, array,
  int_map, str_map, boolean, null, no_items, item, no_ints, int_entry, no_strs, str_entry, Limits,
}
use aafp_go.Cbor.Encode.{
  encode, encode_items, count_items, sort_entries, int_key_less, str_key_less,
}
use aafp_go.Cbor.Encode.Unordered.{Distinct}
use aafp_go.Cbor.Decode.{decode_items, simple_value}
use aafp_go.Cbor.Canonical.{canonical_value, decode_canonical_check, check_canonical}
use aafp_go.Cbor.Decode.RoundTrip.Sorting.{All-sort_entries}
use aafp_go.Cbor.Decode.RoundTrip.Shape.{
  canon, canon_items, Fits, FitsItems, FitsInts, FitsStrs, depth, depth_items, depth_ints,
  depth_strs,
}
use aafp_go.Cbor.Decode.RoundTrip.Parts.{Room}
use aafp_go.Cbor.Decode.RoundTrip.Values.{
  both_ints, both_strs, int_map_written, int_map_read, str_map_written, str_map_read,
  depth_ints-pos, depth_strs-pos,
}
use aafp_go.Cbor.Decode.RoundTrip.Fuel.{depth-le}
use aafp_go.Cbor.Canonical.Written.Parts.{
  Accepts, Accepts-unsigned, Accepts-negative, Accepts-bytes, Accepts-text, Accepts-simple,
}
use aafp_go.Cbor.Canonical.Written.Entries.{AcceptsInt, AcceptsStr}
use aafp_go.Cbor.Canonical.Written.Keys.{Distinct-sort_entries}
use aafp_go.Cbor.Canonical.Written.Clean.{
  IsClean, CleanItems, CleanInts, CleanStrs, ints-Distinct, strs-Distinct,
}
use aafp_go.Cbor.Canonical.Written.Maps.{Accepts-array, Accepts-int_map, Accepts-str_map}

module _ (limits : Limits) (len : ℕ) (room : Room limits len) where
  decode_items-item :
      (f : ℕ) (v : Value) (xs : Items)
      → Accepts limits len room f (canon v) (encode v)
      → ((rest : Bytes)
          → length (encode_items xs ++ rest) ≤ len
          → decode_items (canonical_value limits len f) (count_items xs) (encode_items xs ++ rest)
            ≡ ok (canon_items xs, rest))
      → (rest : Bytes) → length ((encode v ++ encode_items xs) ++ rest) ≤ len
      → decode_items
          (canonical_value limits len f)
          (suc (count_items xs))
          ((encode v ++ encode_items xs) ++ rest)
        ≡ ok (item (canon v) (canon_items xs), rest)
  unfolding decode_items
  decode_items-item f v xs read more rest fits =
      let split = append_assoc (encode v) (encode_items xs) rest in
      let size = ap length split in
      rw split (
        rw (read (encode_items xs ++ rest) (omega (arith, size))) (
          rw (more rest (omega (arith, size, length-append (encode v) (encode_items xs ++ rest))))))

  Accepts-canon_ints :
      (f : ℕ) (es : IntEntries)
      → All (AcceptsInt limits len room f) (both_ints es)
      → Distinct (both_ints es)
      → Accepts limits len room (suc (suc f)) (canon (int_map es)) (encode (int_map es))
  Accepts-canon_ints f es h distinct =
      let sorted = All-sort_entries int_key_less (AcceptsInt limits len room f) (both_ints es) h in
      let apart = Distinct-sort_entries int_key_less (both_ints es) distinct in
      rw (← int_map_written es, ← int_map_read es)
        (Accepts-int_map limits len room f (sort_entries int_key_less (both_ints es)) sorted apart)

  Accepts-canon_strs :
      (f : ℕ) (es : StrEntries)
      → All (AcceptsStr limits len room f) (both_strs es)
      → Distinct (both_strs es)
      → Accepts limits len room (suc (suc f)) (canon (str_map es)) (encode (str_map es))
  Accepts-canon_strs f es h distinct =
      let sorted = All-sort_entries str_key_less (AcceptsStr limits len room f) (both_strs es) h in
      let apart = Distinct-sort_entries str_key_less (both_strs es) distinct in
      rw (← str_map_written es, ← str_map_read es)
        (Accepts-str_map limits len room f (sort_entries str_key_less (both_strs es)) sorted apart)

  mutual
    unfolding encode canon depth both_ints both_strs decode_items simple_value

    pub accepts :
        (v : Value)
        → Fits v
        → IsClean v
        → (f : ℕ) → depth v ≤ f
        → Accepts limits len room f (canon v) (encode v)
    accepts (unsigned n) h c zero d = absurd (omega arith)
    accepts (unsigned n) h c (suc f) d = Accepts-unsigned limits len room f n h
    accepts (negative (pos n)) h c f d = absurd h
    accepts (negative (negsuc n)) h c zero d = absurd (omega arith)
    accepts (negative (negsuc n)) h c (suc f) d = Accepts-negative limits len room f n h
    accepts (byte_string b) h c zero d = absurd (omega arith)
    accepts (byte_string b) h c (suc f) d = Accepts-bytes limits len room f b
    accepts (text_string b) h c zero d = absurd (omega arith)
    accepts (text_string b) h c (suc f) d = Accepts-text limits len room f b c
    accepts (array xs) h c zero d = absurd (omega arith)
    accepts (array xs) h c (suc f) d =
        Accepts-array limits len room f xs (accepts_items xs h c f (omega arith))
    accepts (int_map es) h c zero d = absurd (omega arith)
    accepts (int_map es) h c (suc zero) d = absurd (omega (arith, depth_ints-pos es))
    accepts (int_map es) h c (suc (suc f)) d =
        Accepts-canon_ints f es (accepts_ints es h c f (omega arith)) (ints-Distinct es c)
    accepts (str_map es) h c zero d = absurd (omega arith)
    accepts (str_map es) h c (suc zero) d = absurd (omega (arith, depth_strs-pos es))
    accepts (str_map es) h c (suc (suc f)) d =
        Accepts-canon_strs f es (accepts_strs es h c f (omega arith)) (strs-Distinct es c)
    accepts (boolean b) h c zero d = absurd (omega arith)
    accepts (boolean true) h c (suc f) d =
        Accepts-simple limits len room f 21 (boolean true) 0xf5 refl refl (omega arith) refl
    accepts (boolean false) h c (suc f) d =
        Accepts-simple limits len room f 20 (boolean false) 0xf4 refl refl (omega arith) refl
    accepts null h c zero d = absurd (omega arith)
    accepts null h c (suc f) d =
        Accepts-simple limits len room f 22 null 0xf6 refl refl (omega arith) refl

    accepts_items :
        (xs : Items)
        → FitsItems xs
        → CleanItems xs
        → (f : ℕ) → depth_items xs ≤ f
        → (rest : Bytes) → length (encode_items xs ++ rest) ≤ len
        → decode_items (canonical_value limits len f) (count_items xs) (encode_items xs ++ rest)
          ≡ ok (canon_items xs, rest)
    accepts_items no_items h c f d rest fits = refl
    accepts_items (item v xs) (h, k) (c, l) f d rest fits =
        decode_items-item f v xs (accepts v h c f (omega arith))
          (accepts_items xs k l f (omega arith)) rest fits

    accepts_ints :
        (es : IntEntries)
        → FitsInts es
        → CleanInts es
        → (f : ℕ) → depth_ints es ≤ suc f
        → All (AcceptsInt limits len room f) (both_ints es)
    accepts_ints no_ints h c f d = tt
    accepts_ints (int_entry k v es) (q, h, r) (_, c, l) f d =
        ((q, accepts v h c (suc f) (omega arith)), accepts_ints es r l f (omega arith))

    accepts_strs :
        (es : StrEntries)
        → FitsStrs es
        → CleanStrs es
        → (f : ℕ) → depth_strs es ≤ suc f
        → All (AcceptsStr limits len room f) (both_strs es)
    accepts_strs no_strs h c f d = tt
    accepts_strs (str_entry k v es) (h, r) (u, _, c, l) f d =
        ((u, accepts v h c (suc f) (omega arith)), accepts_strs es r l f (omega arith))

decode_canonical_check-encode :
    (limits : Limits) (v : Value)
    → Fits v
    → IsClean v
    → Room limits (length (encode v))
    → decode_canonical_check limits (encode v) ≡ ok (canon v, [])
unfolding decode_canonical_check
decode_canonical_check-encode limits v h c room =
    let input = encode v in
    let whole = append-nil input in
    subst (λ b. canonical_value limits (length input) (suc (length input)) b ≡ ok (canon v, []))
      whole
      (accepts limits (length input) room v h c (suc (length input)) (depth-le v) []
        (omega (arith, ap length whole)))

all_taken : (n : ℕ) → (n - 0 == n) ≡ true
all_taken n = ground arith

-- `CheckCanonical` accepts what `Encode` writes for a value whose numbers fit their Go types, whose
-- texts and text keys are UTF-8 without U+FFFD, and whose maps have distinct keys, at every level.
-- The encoding is no longer than an int and than the slices that `make` can allocate.
pub check_canonical-encode :
    (limits : Limits) (v : Value)
    → Fits v
    → IsClean v
    → Room limits (length (encode v))
    → check_canonical limits (encode v) ≡ ok tt
unfolding check_canonical
check_canonical-encode limits v h c room =
    rw (decode_canonical_check-encode limits v h c room) (rw (all_taken (length (encode v))) refl)
