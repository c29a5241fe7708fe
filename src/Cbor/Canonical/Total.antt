-- ===== src/Cbor/Canonical/Total.antt =====
-- `CheckCanonical` ends on every input, and how much of the input its parts take.
use aafp_go.Cbor.Decode.Total.{
  Shrinks, Lasts, decode_items-le, decode_items-ne-stuck, simple_value-ne-stuck,
}
use aafp_go.Cbor.Head.{read_arg_canonical}
use aafp_go.Base.{
  ℕ, zero, suc, ◌+◌, ◌≤◌, ◌≡◌, ◌≢◌, inl, inr, Bytes, [], ◌∷◌, length, length-drop, Bool-cases, ◌==◌,
  ◌&&◌, bit_and, ok, err, >>=-eq-ok, >>=-eq-err, arith,
}
use aafp_go.Cbor.{
  Value, unsigned, negative, byte_string, text_string, array, int_map, str_map, boolean, null,
  stuck, Limits,
}
use aafp_go.Cbor.Decode.{Decoder, decode_items}
use aafp_go.Cbor.Canonical.{
  is_container, Seen, add_entry, read_entries, map_of_seen, slice, canonical_array, canonical_map,
  canonical_text, canonical_body, canonical_step, canonical_value, decode_canonical_check,
  check_canonical,
}

pub read_arg_canonical-le :
    (ai : ℕ) (rest r : Bytes) (v : ℕ)
    → read_arg_canonical ai rest ≡ ok (v, r)
    → length r ≤ length rest
unfolding read_arg_canonical
read_arg_canonical-le ai rest r v h =
    ground (arith, length-drop 1 rest, length-drop 2 rest, length-drop 4 rest, length-drop 8 rest)

read_arg_canonical-ne-stuck : (ai : ℕ) (rest : Bytes) → read_arg_canonical ai rest ≢ err stuck
unfolding read_arg_canonical
read_arg_canonical-ne-stuck ai rest h = ground arith

add_entry-ne-stuck : (k v : Value) (seen : Seen) → add_entry k v seen ≢ err stuck
unfolding add_entry
add_entry-ne-stuck (unsigned u) v seen h = ground arith
add_entry-ne-stuck (negative n) v seen h = ground arith
add_entry-ne-stuck (text_string s) v seen h = ground arith
add_entry-ne-stuck (byte_string s) v seen h = cc
add_entry-ne-stuck (array xs) v seen h = cc
add_entry-ne-stuck (int_map es) v seen h = cc
add_entry-ne-stuck (str_map es) v seen h = cc
add_entry-ne-stuck (boolean b) v seen h = cc
add_entry-ne-stuck null v seen h = cc

map_of_seen-ne-stuck : (seen : Seen) → map_of_seen seen ≢ err stuck
unfolding map_of_seen
map_of_seen-ne-stuck seen h = ground arith

module _ (dec : Decoder) (shrinks : Shrinks dec) where
  -- The entries read take two bytes each.
  pub read_entries-le :
      (n : ℕ) (rest r : Bytes) (seen last : Seen)
      → read_entries dec n seen rest ≡ ok (last, r)
      → length r + n ≤ length rest
  unfolding read_entries
  read_entries-le zero rest r seen last h = ground arith
  read_entries-le (suc n) rest r seen last h =
      let (k, e, h') = >>=-eq-ok (dec rest) _ h in
      let (v, f, h'') = >>=-eq-ok (dec k.1) _ h' in
      let (q, g, h''') = >>=-eq-ok (add_entry k.0 v.0 seen) _ h'' in
      omega
        (arith, shrinks rest k.1 k.0 e, shrinks k.1 v.1 v.0 f, read_entries-le n v.1 r q last h''')

  read_entries-ne-stuck :
      (n most : ℕ) (rest : Bytes) (seen : Seen)
      → Lasts dec most
      → length rest ≤ most
      → read_entries dec n seen rest ≢ err stuck
  unfolding read_entries
  read_entries-ne-stuck zero most rest seen lasts room h = cc
  read_entries-ne-stuck (suc n) most rest seen lasts room h = elim (>>=-eq-err (dec rest) _ h) [
    | inl e ↦ lasts rest room e
    | inr (k, e, h') ↦ elim (>>=-eq-err (dec k.1) _ h') [
      | inl f ↦ lasts k.1 (omega (arith, shrinks rest k.1 k.0 e)) f
      | inr (v, f, h'') ↦ elim (>>=-eq-err (add_entry k.0 v.0 seen) _ h'') [
        | inl g ↦ add_entry-ne-stuck k.0 v.0 seen g
        | inr (q, g, h''') ↦
            read_entries-ne-stuck n most v.1 q lasts
              (omega (arith, shrinks rest k.1 k.0 e, shrinks k.1 v.1 v.0 f)) h'''
      ]
    ]
  ]

module _ (limits : Limits) (len : ℕ) where
  slice-le :
      (arg : ℕ) (rest b r : Bytes) → slice limits len arg rest ≡ ok (b, r) → length r ≤ length rest
  unfolding slice
  slice-le arg rest b r h = ground (arith, length-drop arg rest)

  slice-ne-stuck : (arg : ℕ) (rest : Bytes) → slice limits len arg rest ≢ err stuck
  unfolding slice
  slice-ne-stuck arg rest h = ground arith

  -- A step that succeeds has read an argument, and the body behind it.
  pub canonical_step-ok :
      (dec : Decoder) (ib : ℕ) (rest : Bytes) (q : Value × Bytes)
      → canonical_step limits len dec (ib ∷ rest) ≡ ok q
      → (a : ℕ × Bytes) × (read_arg_canonical (bit_and ib 0x1f) rest ≡ ok a)
        × (canonical_body limits len dec (bit_and ib 0xe0) (bit_and ib 0x1f) a.0 a.1 ≡ ok q)
  unfolding canonical_step
  canonical_step-ok dec ib rest q h =
      elim (Bool-cases (bit_and ib 0x1f == 31 && is_container (bit_and ib 0xe0))) [
        | inl long ↦ absurd (ground (arith, long, h))
        | inr short ↦ >>=-eq-ok (read_arg_canonical (bit_and ib 0x1f) rest) _ (rw short at h)
      ]

  module _ (dec : Decoder) (shrinks : Shrinks dec) where
    canonical_text-le :
        (arg : ℕ) (rest r : Bytes) (v : Value)
        → canonical_text limits len arg rest ≡ ok (v, r)
        → length r ≤ length rest
    unfolding canonical_text
    canonical_text-le arg rest r v h = grind (arith, slice-le)

    canonical_array-le :
        (arg : ℕ) (rest r : Bytes) (v : Value)
        → canonical_array limits len dec arg rest ≡ ok (v, r)
        → length r ≤ length rest
    unfolding canonical_array decode_items
    canonical_array-le arg rest r v h = grind (arith, decode_items-le dec shrinks)

    canonical_map-le :
        (arg : ℕ) (rest r : Bytes) (v : Value)
        → canonical_map limits len dec arg rest ≡ ok (v, r)
        → length r ≤ length rest
    unfolding canonical_map
    canonical_map-le arg rest r v h =
        let (p, e, h') = >>=-eq-ok (read_entries dec arg _ rest) _ h in
        let (q, f, h'') = >>=-eq-ok (map_of_seen p.0) _ h' in
        ground (arith, read_entries-le dec shrinks arg rest p.1 _ p.0 e)

    canonical_body-le :
        (mt ai arg : ℕ) (rest r : Bytes) (v : Value)
        → canonical_body limits len dec mt ai arg rest ≡ ok (v, r)
        → length r ≤ length rest
    unfolding canonical_body
    canonical_body-le mt ai arg rest r v h =
        grind (arith, slice-le, canonical_text-le, canonical_array-le, canonical_map-le)

    canonical_step-Shrinks : Shrinks (canonical_step limits len dec)
    unfolding canonical_step
    canonical_step-Shrinks [] r v h = cc
    canonical_step-Shrinks (ib ∷ rest) r v h =
        let (a, e, h') = canonical_step-ok dec ib rest (v, r) h in
        omega (
          arith,
          read_arg_canonical-le (bit_and ib 0x1f) rest a.1 a.0 e,
          canonical_body-le (bit_and ib 0xe0) (bit_and ib 0x1f) a.0 a.1 r v h',
        )

    module _ (most : ℕ) (lasts : Lasts dec most) where
      canonical_map-ne-stuck :
          (arg : ℕ) (rest : Bytes)
          → length rest ≤ most
          → canonical_map limits len dec arg rest ≢ err stuck
      unfolding canonical_map
      canonical_map-ne-stuck arg rest room h = elim (>>=-eq-err (read_entries dec arg _ rest) _ h) [
        | inl e ↦ read_entries-ne-stuck dec shrinks arg most rest _ lasts room e
        | inr (p, e, h') ↦ elim (>>=-eq-err (map_of_seen p.0) _ h') [
          | inl f ↦ map_of_seen-ne-stuck p.0 f
          | inr (q, f, h'') ↦ cc
        ]
      ]

      canonical_body-ne-stuck :
          (mt ai arg : ℕ) (rest : Bytes)
          → length rest ≤ most
          → canonical_body limits len dec mt ai arg rest ≢ err stuck
      unfolding canonical_body canonical_text canonical_array
      canonical_body-ne-stuck mt ai arg rest room h = grind (
        arith,
        slice-ne-stuck arg rest,
        decode_items-ne-stuck dec shrinks arg most rest lasts room,
        canonical_map-ne-stuck arg rest room,
        simple_value-ne-stuck limits len ai,
      )

      canonical_step-ne-stuck :
          (rest : Bytes) → length rest ≤ suc most → canonical_step limits len dec rest ≢ err stuck
      unfolding canonical_step
      canonical_step-ne-stuck [] room h = cc
      canonical_step-ne-stuck (ib ∷ rest) room h =
          elim (Bool-cases (bit_and ib 0x1f == 31 && is_container (bit_and ib 0xe0))) [
            | inl long ↦ ground (arith, long, h)
            | inr short ↦
                elim (>>=-eq-err (read_arg_canonical (bit_and ib 0x1f) rest) _ (rw short at h)) [
                  | inl e ↦ read_arg_canonical-ne-stuck (bit_and ib 0x1f) rest e
                  | inr (a, e, h') ↦
                      canonical_body-ne-stuck (bit_and ib 0xe0) (bit_and ib 0x1f) a.0 a.1
                        (omega (arith, read_arg_canonical-le (bit_and ib 0x1f) rest a.1 a.0 e)) h'
                ]
          ]

  pub canonical_value-Shrinks : (fuel : ℕ) → Shrinks (canonical_value limits len fuel)
  unfolding canonical_value
  canonical_value-Shrinks zero rest r v h = cc
  canonical_value-Shrinks (suc fuel) rest r v h =
      canonical_step-Shrinks (canonical_value limits len fuel) (canonical_value-Shrinks fuel) rest r
        v h

  canonical_value-Lasts : (fuel : ℕ) → Lasts (canonical_value limits len (suc fuel)) fuel
  unfolding canonical_value
  canonical_value-Lasts zero [] room h = unfold canonical_step in cc
  canonical_value-Lasts zero (b ∷ rest) room h = absurd (omega arith)
  canonical_value-Lasts (suc fuel) rest room h =
      canonical_step-ne-stuck (canonical_value limits len (suc fuel))
        (canonical_value-Shrinks (suc fuel)) fuel (canonical_value-Lasts fuel) rest room h

-- `CheckCanonical` ends on every input: its recursion never runs out of fuel.
pub check_canonical-ne-stuck :
    (limits : Limits) (input : Bytes) → check_canonical limits input ≢ err stuck
unfolding check_canonical decode_canonical_check
check_canonical-ne-stuck limits input h =
    elim (>>=-eq-err (canonical_value limits (length input) (suc (length input)) input) _ h) [
      | inl e ↦ canonical_value-Lasts limits (length input) (length input) input (omega arith) e
      | inr (a, e, h') ↦ ground arith
    ]
