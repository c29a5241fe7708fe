-- ===== src/Cbor/Canonical/Accepted.antt =====
-- What the canonical check accepts has distinct keys and valid texts at every level.
use aafp_go.Cbor.Decode.{Decoder, decode_items, simple_value}
use aafp_go.Base.{
  ℕ, zero, suc, ◌≡◌, subst, inl, inr, false, Bool-cases, ltb, Bytes, [], ◌∷◌, bit_and, ok, err,
  if◌then◌else◌, >>=-eq-ok, arith,
}
use aafp_go.Base.Ensures.{Ensures, Ensures-ok, Ensures-err, Ensures-panic, Ensures-if, Ensures-bind}
use aafp_go.Base.Int.{negsuc}
use aafp_go.Cbor.{
  Value, Items, unsigned, negative, byte_string, text_string, array, no_items, item, Limits, n_int,
  negative_overflow, unsupported_major, invalid_utf8,
}
use aafp_go.Cbor.Decode.{max_int}
use aafp_go.Cbor.Canonical.{
  Seen, add_entry, read_entries, map_of_seen, slice, canonical_array, canonical_map, canonical_text,
  canonical_body, canonical_step, canonical_value, is_valid_utf8,
}
use aafp_go.Cbor.Canonical.Total.{canonical_step-ok}
use aafp_go.Cbor.Canonical.Written.Clean.{IsClean, CleanItems}
use aafp_go.Cbor.Canonical.CleanEntries.{CleanSeen, add_entry-CleanSeen, map_of_seen-Clean}
use aafp_go.Cbor.Decode.Typed.{simple_value-cases}

abbrev Cleans : Decoder → Type 0
Cleans dec = (rest r : Bytes) (v : Value) → dec rest ≡ ok (v, r) → IsClean v

-- Whether the value is clean, whatever is left of the input.
abbrev CleanValue : Value × Bytes → Type 0
CleanValue q = IsClean q.0

simple_value-Clean : (ai : ℕ) (v : Value) → simple_value ai ≡ ok v → IsClean v
simple_value-Clean ai v h = elim (simple_value-cases ai v h) [
  | inl off ↦ rw off tt
  | inr (inl on) ↦ rw on tt
  | inr (inr nothing) ↦ rw nothing tt
]

module _ (dec : Decoder) (cleans : Cleans dec) where
  decode_items-Clean :
      (n : ℕ) (rest r : Bytes) (xs : Items) → decode_items dec n rest ≡ ok (xs, r) → CleanItems xs
  unfolding decode_items
  decode_items-Clean zero rest r no_items h = tt
  decode_items-Clean zero rest r (item v xs) h = absurd (ground (arith, h))
  decode_items-Clean (suc n) rest r xs h =
      let (p, e, h') = >>=-eq-ok (dec rest) _ h in
      let (q, e', h'') = >>=-eq-ok (decode_items dec n p.1) _ h' in
      let same : item p.0 q.0 ≡ xs = ground (arith, h'') in
      subst CleanItems same (cleans rest p.1 p.0 e, decode_items-Clean n p.1 q.1 q.0 e')

  read_entries-CleanSeen :
      (n : ℕ) (seen last : Seen) (rest r : Bytes)
      → CleanSeen seen
      → read_entries dec n seen rest ≡ ok (last, r)
      → CleanSeen last
  unfolding read_entries
  read_entries-CleanSeen zero seen last rest r c h = subst CleanSeen (ground (arith, h)) c
  read_entries-CleanSeen (suc n) seen last rest r c h =
      let (k, e, h') = >>=-eq-ok (dec rest) _ h in
      let (v, f, h'') = >>=-eq-ok (dec k.1) _ h' in
      let (next, g, h''') = >>=-eq-ok (add_entry k.0 v.0 seen) _ h'' in
      read_entries-CleanSeen n next last v.1 r
        (add_entry-CleanSeen k.0 v.0 seen next c (cleans rest k.1 k.0 e) (cleans k.1 v.1 v.0 f) g)
        h'''

no_entries : CleanSeen (record { ints = []; strs = []; others = false })
no_entries = record { ints_apart = tt; ints_clean = tt; strs_apart = tt; strs_clean = tt }

module _ (limits : Limits) (len : ℕ) where
  canonical_text-Ensures :
      (arg : ℕ) (rest : Bytes) → Ensures CleanValue (canonical_text limits len arg rest)
  unfolding canonical_text
  canonical_text-Ensures arg rest = Ensures-bind CleanValue (slice limits len arg rest) _ (λ q h.
      elim (Bool-cases (is_valid_utf8 q.0)) [
        | inl valid ↦ rw valid (Ensures-ok CleanValue (text_string q.0, q.1) valid)
        | inr broken ↦ rw broken (Ensures-err CleanValue invalid_utf8)
      ])

  canonical_negative-Ensures :
      (arg : ℕ) (rest : Bytes)
      → Ensures CleanValue
          (if ltb max_int arg then err negative_overflow else ok (n_int (negsuc arg), rest))
  unfolding n_int
  canonical_negative-Ensures arg rest =
      Ensures-if CleanValue _ _ _ (Ensures-err CleanValue negative_overflow)
        (Ensures-ok CleanValue (negative (negsuc arg), rest) tt)

  module _ (dec : Decoder) (cleans : Cleans dec) where
    canonical_array-Ensures :
        (arg : ℕ) (rest : Bytes) → Ensures CleanValue (canonical_array limits len dec arg rest)
    unfolding canonical_array
    canonical_array-Ensures arg rest = Ensures-if CleanValue _ _ _ (Ensures-panic CleanValue) (
        Ensures-bind CleanValue (decode_items dec arg rest) _ (λ q h.
          Ensures-ok CleanValue (array q.0, q.1)
            (decode_items-Clean dec cleans arg rest q.1 q.0 h)))

    canonical_map-Ensures :
        (arg : ℕ) (rest : Bytes) → Ensures CleanValue (canonical_map limits len dec arg rest)
    unfolding canonical_map
    canonical_map-Ensures arg rest = Ensures-bind CleanValue (read_entries dec arg _ rest) _ (λ q h.
        let clean = read_entries-CleanSeen dec cleans arg _ q.0 rest q.1 no_entries h in
        Ensures-bind CleanValue (map_of_seen q.0) _
          (λ m e. Ensures-ok CleanValue (m, q.1) ((map_of_seen-Clean q.0 clean).holds m e)))

    canonical_body-Ensures :
        (mt ai arg : ℕ) (rest : Bytes)
        → Ensures CleanValue (canonical_body limits len dec mt ai arg rest)
    unfolding canonical_body
    canonical_body-Ensures mt ai arg rest =
        Ensures-if CleanValue _ _ _ (Ensures-ok CleanValue (unsigned arg, rest) tt) (
          Ensures-if CleanValue _ _ _ (canonical_negative-Ensures arg rest) (
            Ensures-if CleanValue _ _ _
              (Ensures-bind CleanValue (slice limits len arg rest) _
                (λ q h. Ensures-ok CleanValue (byte_string q.0, q.1) tt))
              (Ensures-if CleanValue _ _ _ (canonical_text-Ensures arg rest) (
                Ensures-if CleanValue _ _ _ (canonical_array-Ensures arg rest) (
                  Ensures-if CleanValue _ _ _ (canonical_map-Ensures arg rest) (
                    Ensures-if CleanValue _ _ _
                      (Ensures-bind CleanValue (simple_value ai) _
                        (λ v h. Ensures-ok CleanValue (v, rest) (simple_value-Clean ai v h)))
                      (Ensures-err CleanValue unsupported_major)))))))

    canonical_step-Cleans : Cleans (canonical_step limits len dec)
    unfolding canonical_step
    canonical_step-Cleans [] r v h = absurd (ground (arith, h))
    canonical_step-Cleans (ib ∷ rest) r v h =
        let (a, e, h') = canonical_step-ok limits len dec ib rest (v, r) h in
        (canonical_body-Ensures (bit_and ib 0xe0) (bit_and ib 0x1f) a.0 a.1).holds (v, r) h'

  pub canonical_value-Cleans : (fuel : ℕ) → Cleans (canonical_value limits len fuel)
  unfolding canonical_value
  canonical_value-Cleans zero rest r v h = absurd (ground (arith, h))
  canonical_value-Cleans (suc fuel) rest r v h =
      canonical_step-Cleans (canonical_value limits len fuel) (canonical_value-Cleans fuel) rest r v
        h
