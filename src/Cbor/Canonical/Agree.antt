-- ===== src/Cbor/Canonical/Agree.antt =====
-- What the canonical check reads, `Decode` reads too: the same value, and as many bytes of the input.
use aafp_go.Cbor.Decode.Total.{Shrinks, decode_items-le}
use aafp_go.Cbor.Head.{read_arg, read_arg_canonical}
use aafp_go.Base.{
  ℕ, zero, suc, ◌-◌, ◌≤◌, ◌≡◌, refl, ap, subst, ◌∙◌, inl, inr, false, not, ◌&&◌, Bytes, List, [],
  ◌∷◌, length, Bool-cases, ◌==◌, fail_if, bit_and, ok, >>=-eq-ok, arith, leb, ltb,
}
use aafp_go.Cbor.{Value, Items, text_string, CborError, trailing_bytes, Limits}
use aafp_go.Cbor.Decode.{
  Decoder, decode_items, decode_pairs, max_int, checked_add, read_string, decode_array, decode_map,
  decode_body, decode_step, decode_value, decode,
}
use aafp_go.Cbor.Canonical.{
  Seen, add_entry, read_entries, map_of_seen, slice, canonical_array, canonical_map, canonical_text,
  canonical_body, canonical_step, canonical_value, decode_canonical_check, check_canonical,
}
use aafp_go.Cbor.Canonical.Written.Clean.{IsClean}
use aafp_go.Cbor.Canonical.Accepted.{canonical_value-Cleans}
use aafp_go.Cbor.Canonical.Entries.{
  Collects, Collects-start, add_entry-Collects, map_of_seen-map_of, map_of_seen-others,
}
use aafp_go.Cbor.Canonical.Total.{
  read_entries-le, canonical_step-ok, canonical_value-Shrinks, read_arg_canonical-le,
}

-- On inputs of at most `len` bytes, the second decoder gives what the first gives.
abbrev Follows : ℕ → Decoder → Decoder → Type 0
Follows len dec dec' =
    (rest r : Bytes) (v : Value) → length rest ≤ len → dec rest ≡ ok (v, r) → dec' rest ≡ ok (v, r)

read_arg_canonical-read_arg :
    (ai : ℕ) (rest : Bytes) (q : ℕ × Bytes)
    → read_arg_canonical ai rest ≡ ok q
    → read_arg ai rest ≡ ok q
unfolding read_arg read_arg_canonical
read_arg_canonical-read_arg ai rest q h = ground arith

module _ (len : ℕ) (dec dec' : Decoder) (shrinks : Shrinks dec)
    (follows : Follows len dec dec') where
  decode_items-same :
      (n : ℕ) (rest r : Bytes) (xs : Items)
      → length rest ≤ len
      → decode_items dec n rest ≡ ok (xs, r)
      → decode_items dec' n rest ≡ ok (xs, r)
  unfolding decode_items
  decode_items-same zero rest r xs room h = h
  decode_items-same (suc n) rest r xs room h =
      let (p, e, h') = >>=-eq-ok (dec rest) _ h in
      let (q, e', h'') = >>=-eq-ok (decode_items dec n p.1) _ h' in
      let less = shrinks rest p.1 p.0 e in
      rw (follows rest p.1 p.0 room e)
        (rw (decode_items-same n p.1 q.1 q.0 (omega (arith, less)) e') h'')

  read_entries-pairs :
      (n : ℕ) (rest r : Bytes) (seen last : Seen)
      → length rest ≤ len
      → last.others ≡ false
      → read_entries dec n seen rest ≡ ok (last, r)
      → (ps : List (Value × Value)) × (decode_pairs dec' n rest ≡ ok (ps, r))
        × Collects seen ps last
  unfolding read_entries decode_pairs
  read_entries-pairs zero rest r seen last room others h =
      let same : seen ≡ last = ground (arith, h) in
      let behind : rest ≡ r = ground (arith, h) in
      (
        [],
        ap (λ b. ok ([], b)) behind,
        subst (λ s. Collects seen [] s) same
            (Collects-start seen (ap (λ s. s.others) same ∙ others)),
      )
  read_entries-pairs (suc n) rest r seen last room others h =
      let (k, e, h') = >>=-eq-ok (dec rest) _ h in
      let (v, f, h'') = >>=-eq-ok (dec k.1) _ h' in
      let (next, g, h''') = >>=-eq-ok (add_entry k.0 v.0 seen) _ h'' in
      let first = shrinks rest k.1 k.0 e in
      let second = shrinks k.1 v.1 v.0 f in
      let (ps, pairs, c) =
        read_entries-pairs n v.1 r next last (omega (arith, first, second)) others h''' in
      (
        (k.0, v.0) ∷ ps,
        rw (follows rest k.1 k.0 room e)
            (rw (follows k.1 v.1 v.0 (omega (arith, first)) f) (rw pairs refl)),
        add_entry-Collects k.0 v.0 seen next last ps g c,
      )

  module _ (limits : Limits) (pairs_fit : len ≤ limits.max_pairs) where
    slice-read_string :
        (arg : ℕ) (rest : Bytes) (q : Bytes × Bytes)
        → length rest ≤ len
        → slice limits len arg rest ≡ ok q
        → read_string limits len arg rest ≡ ok q
    unfolding slice read_string checked_add
    slice-read_string arg rest q room h = ground arith

    slice-text :
        (arg : ℕ) (rest : Bytes) (q : Value × Bytes)
        → length rest ≤ len
        → canonical_text limits len arg rest ≡ ok q
        → (p : Bytes × Bytes) × (read_string limits len arg rest ≡ ok p)
          × ((text_string p.0, p.1) ≡ q)
    unfolding canonical_text
    slice-text arg rest q room h =
        let (p, e, h') = >>=-eq-ok (slice limits len arg rest) _ h in
        (p, slice-read_string arg rest p room e, ground (arith, h'))

    canonical_array-decode_array :
        (arg : ℕ) (rest : Bytes) (q : Value × Bytes)
        → length rest ≤ len
        → canonical_array limits len dec arg rest ≡ ok q
        → decode_array limits len dec' arg rest ≡ ok q
    unfolding canonical_array decode_array
    canonical_array-decode_array arg rest q room h =
        let few : ltb limits.max_values arg ≡ false = ground (arith, h) in
        let (p, e, h') = >>=-eq-ok (decode_items dec arg rest) _ (rw few at h) in
        let count = decode_items-le dec shrinks arg rest p.1 p.0 e in
        let fits : (leb arg max_int && ltb (length rest) arg) ≡ false = ground (arith, count) in
        rw fits (rw few (rw (decode_items-same arg rest p.1 p.0 room e) h'))

    canonical_map-decode_map :
        (arg : ℕ) (rest : Bytes) (q : Value × Bytes)
        → length rest ≤ len
        → canonical_map limits len dec arg rest ≡ ok q
        → decode_map limits len dec' arg rest ≡ ok q
    unfolding canonical_map decode_map
    canonical_map-decode_map arg rest q room h =
        let (p, e, h') = >>=-eq-ok (read_entries dec arg _ rest) _ h in
        let (m, f, h'') = >>=-eq-ok (map_of_seen p.0) _ h' in
        let count = read_entries-le dec shrinks arg rest p.1 _ p.0 e in
        let (ps, pairs, c) =
          read_entries-pairs arg rest p.1 _ p.0 room (map_of_seen-others p.0 m f) e in
        let made = map_of_seen-map_of ps p.0 m c f in
        let fits : (leb arg max_int && ltb (length rest) arg) ≡ false = ground (arith, count) in
        let few : ltb limits.max_pairs arg ≡ false = ground (arith, count, pairs_fit, room) in
        rw fits (rw few (rw pairs (rw made h'')))

    canonical_body-decode_body :
        (mt ai arg : ℕ) (rest : Bytes) (q : Value × Bytes)
        → length rest ≤ len
        → canonical_body limits len dec mt ai arg rest ≡ ok q
        → decode_body limits len dec' mt ai arg rest ≡ ok q
    unfolding canonical_body decode_body
    canonical_body-decode_body mt ai arg rest q room h = grind (
      arith,
      slice-read_string arg rest,
      slice-text arg rest q room,
      canonical_array-decode_array arg rest q room,
      canonical_map-decode_map arg rest q room,
    )

    canonical_step-decode_step :
        (rest : Bytes) (q : Value × Bytes)
        → length rest ≤ len
        → canonical_step limits len dec rest ≡ ok q
        → decode_step limits len dec' rest ≡ ok q
    unfolding decode_step canonical_step
    canonical_step-decode_step [] q room h = cc
    canonical_step-decode_step (ib ∷ rest) q room h =
        let (a, e, h') = canonical_step-ok limits len dec ib rest q h in
        rw (read_arg_canonical-read_arg (bit_and ib 0x1f) rest a e) (
          canonical_body-decode_body (bit_and ib 0xe0) (bit_and ib 0x1f) a.0 a.1 q
            (omega (arith, room, read_arg_canonical-le (bit_and ib 0x1f) rest a.1 a.0 e)) h')

module _ (limits : Limits) (len : ℕ) (pairs_fit : len ≤ limits.max_pairs) where
  canonical_value-Follows :
      (fuel : ℕ) → Follows len (canonical_value limits len fuel) (decode_value limits len fuel)
  unfolding canonical_value decode_value
  canonical_value-Follows zero rest r v room h = cc
  canonical_value-Follows (suc fuel) rest r v room h =
      canonical_step-decode_step len (canonical_value limits len fuel)
        (decode_value limits len fuel) (canonical_value-Shrinks limits len fuel)
        (canonical_value-Follows fuel) limits pairs_fit rest (v, r) room h

same_of_test : (a b : ℕ) (e : CborError) → fail_if (not (a == b)) e ≡ ok tt → a ≡ b
same_of_test a b e h = elim (Bool-cases (a == b)) [
  | inl same ↦ ground (arith, same)
  | inr differ ↦ absurd (ground (arith, differ, h))
]

-- Whatever `CheckCanonical` accepts, `Decode` decodes, and it takes the whole input: neither an error
-- nor a panic comes after the check, provided that as many pairs as the input has bytes can be
-- allocated. In the value, at every level, a map's keys are distinct and the texts and text keys are
-- UTF-8 without U+FFFD.
pub check_canonical-decode :
    (limits : Limits) (input : Bytes)
    → length input ≤ limits.max_pairs
    → check_canonical limits input ≡ ok tt
    → (v : Value) × (decode limits input ≡ ok (v, length input)) × IsClean v
unfolding check_canonical decode_canonical_check decode
check_canonical-decode limits input fit h =
    let (q, e, h') =
      >>=-eq-ok (canonical_value limits (length input) (suc (length input)) input) _ h in
    let whole : length input - length q.1 ≡ length input =
      same_of_test (length input - length q.1) (length input) trailing_bytes h' in
    (
      q.0,
      rw
          (canonical_value-Follows limits (length input) fit (suc (length input)) input q.1 q.0
            (omega arith) e)
          (ap (λ n. ok (q.0, n)) whole),
      canonical_value-Cleans limits (length input) (suc (length input)) input q.1 q.0 e,
    )
