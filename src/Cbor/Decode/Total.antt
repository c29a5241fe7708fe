-- ===== src/Cbor/Decode/Total.antt =====
-- `decode` ends on every input: each value takes a byte, so the fuel is never used up.
use aafp_go.Cbor.Head.{read_arg}
use aafp_go.Base.{
  ℕ, zero, suc, ◌+◌, ◌<◌, ◌≤◌, ◌≡◌, ◌≢◌, inl, inr, Bytes, List, [], ◌∷◌, length, length-drop,
  bit_and, ok, err, >>=-eq-ok, >>=-eq-err, arith,
}
use aafp_go.Cbor.{Value, Items, stuck, Limits}
use aafp_go.Cbor.Decode.{
  Decoder, decode_items, decode_pairs, map_of, simple_value, read_string, decode_array, decode_map,
  decode_body, decode_step, decode_value, decode,
}

-- A decoder that takes a byte at least.
abbrev pub Shrinks : Decoder → Type 0
Shrinks dec = (rest r : Bytes) (v : Value) → dec rest ≡ ok (v, r) → length r < length rest

-- A decoder that does not run out of fuel on so many bytes.
abbrev pub Lasts : Decoder → ℕ → Type 0
Lasts dec n = (rest : Bytes) → length rest ≤ n → dec rest ≢ err stuck

read_arg-le :
    (ai : ℕ) (rest r : Bytes) (v : ℕ) → read_arg ai rest ≡ ok (v, r) → length r ≤ length rest
unfolding read_arg
read_arg-le ai rest r v h =
    ground (arith, length-drop 1 rest, length-drop 2 rest, length-drop 4 rest, length-drop 8 rest)

read_arg-ne-stuck : (ai : ℕ) (rest : Bytes) → read_arg ai rest ≢ err stuck
unfolding read_arg
read_arg-ne-stuck ai rest h = ground arith

module _ (dec : Decoder) (shrinks : Shrinks dec) where
  pub decode_items-le :
      (n : ℕ) (rest r : Bytes) (xs : Items)
      → decode_items dec n rest ≡ ok (xs, r)
      → length r + n ≤ length rest
  unfolding decode_items
  decode_items-le zero rest r xs h = ground arith
  decode_items-le (suc n) rest r xs h =
      let (p, e, h') = >>=-eq-ok (dec rest) _ h in
      let (q, e', h'') = >>=-eq-ok (decode_items dec n p.1) _ h' in
      ground (arith, shrinks rest p.1 p.0 e, decode_items-le n p.1 q.1 q.0 e')

  decode_pairs-le :
      (n : ℕ) (rest r : Bytes) (ps : List (Value × Value))
      → decode_pairs dec n rest ≡ ok (ps, r)
      → length r ≤ length rest
  unfolding decode_pairs
  decode_pairs-le zero rest r ps h = ground arith
  decode_pairs-le (suc n) rest r ps h =
      let (k, e, h') = >>=-eq-ok (dec rest) _ h in
      let (v, f, h'') = >>=-eq-ok (dec k.1) _ h' in
      let (q, g, h''') = >>=-eq-ok (decode_pairs dec n v.1) _ h'' in
      ground (arith, shrinks rest k.1 k.0 e, shrinks k.1 v.1 v.0 f, decode_pairs-le n v.1 q.1 q.0 g)

  pub decode_items-ne-stuck :
      (n most : ℕ) (rest : Bytes)
      → Lasts dec most
      → length rest ≤ most
      → decode_items dec n rest ≢ err stuck
  unfolding decode_items
  decode_items-ne-stuck zero most rest lasts room h = cc
  decode_items-ne-stuck (suc n) most rest lasts room h = elim (>>=-eq-err (dec rest) _ h) [
    | inl e ↦ lasts rest room e
    | inr (p, e, h') ↦ elim (>>=-eq-err (decode_items dec n p.1) _ h') [
      | inl e' ↦ decode_items-ne-stuck n most p.1 lasts (omega (arith, shrinks rest p.1 p.0 e)) e'
      | inr (q, e', h'') ↦ cc
    ]
  ]

  decode_pairs-ne-stuck :
      (n most : ℕ) (rest : Bytes)
      → Lasts dec most
      → length rest ≤ most
      → decode_pairs dec n rest ≢ err stuck
  unfolding decode_pairs
  decode_pairs-ne-stuck zero most rest lasts room h = cc
  decode_pairs-ne-stuck (suc n) most rest lasts room h = elim (>>=-eq-err (dec rest) _ h) [
    | inl e ↦ lasts rest room e
    | inr (k, e, h') ↦ elim (>>=-eq-err (dec k.1) _ h') [
      | inl f ↦ lasts k.1 (omega (arith, shrinks rest k.1 k.0 e)) f
      | inr (v, f, h'') ↦ elim (>>=-eq-err (decode_pairs dec n v.1) _ h'') [
        | inl g ↦
            decode_pairs-ne-stuck n most v.1 lasts
              (omega (arith, shrinks rest k.1 k.0 e, shrinks k.1 v.1 v.0 f)) g
        | inr (q, g, h''') ↦ cc
      ]
    ]
  ]

module _ (limits : Limits) (len : ℕ) where
  read_string-le :
      (arg : ℕ) (rest b r : Bytes)
      → read_string limits len arg rest ≡ ok (b, r)
      → length r ≤ length rest
  unfolding read_string
  read_string-le arg rest b r h = ground (arith, length-drop arg rest)

  read_string-ne-stuck : (arg : ℕ) (rest : Bytes) → read_string limits len arg rest ≢ err stuck
  unfolding read_string
  read_string-ne-stuck arg rest h = ground arith

  map_of-ne-stuck : (ps : List (Value × Value)) → map_of ps ≢ err stuck
  unfolding map_of
  map_of-ne-stuck ps h = ground arith

  pub simple_value-ne-stuck : (ai : ℕ) → simple_value ai ≢ err stuck
  unfolding simple_value
  simple_value-ne-stuck ai h = ground arith

  module _ (dec : Decoder) (shrinks : Shrinks dec) where
    decode_array-le :
        (arg : ℕ) (rest r : Bytes) (v : Value)
        → decode_array limits len dec arg rest ≡ ok (v, r)
        → length r ≤ length rest
    unfolding decode_array decode_items
    decode_array-le arg rest r v h = grind (arith, decode_items-le dec shrinks)

    decode_map-le :
        (arg : ℕ) (rest r : Bytes) (v : Value)
        → decode_map limits len dec arg rest ≡ ok (v, r)
        → length r ≤ length rest
    unfolding decode_map decode_pairs map_of
    decode_map-le arg rest r v h = grind (arith, decode_pairs-le dec shrinks)

    decode_body-le :
        (mt ai arg : ℕ) (rest r : Bytes) (v : Value)
        → decode_body limits len dec mt ai arg rest ≡ ok (v, r)
        → length r ≤ length rest
    unfolding decode_body
    decode_body-le mt ai arg rest r v h =
        grind (arith, read_string-le, decode_array-le, decode_map-le)

    decode_step-Shrinks : Shrinks (decode_step limits len dec)
    unfolding decode_step
    decode_step-Shrinks [] r v h = cc
    decode_step-Shrinks (ib ∷ rest) r v h =
        let (a, e, h') = >>=-eq-ok (read_arg (bit_and ib 0x1f) rest) _ h in
        omega (
          arith,
          read_arg-le (bit_and ib 0x1f) rest a.1 a.0 e,
          decode_body-le (bit_and ib 0xe0) (bit_and ib 0x1f) a.0 a.1 r v h',
        )

    module _ (most : ℕ) (lasts : Lasts dec most) where
      decode_array-ne-stuck :
          (arg : ℕ) (rest : Bytes)
          → length rest ≤ most
          → decode_array limits len dec arg rest ≢ err stuck
      unfolding decode_array
      decode_array-ne-stuck arg rest room h =
          grind (arith, decode_items-ne-stuck dec shrinks arg most rest lasts room)

      decode_map-ne-stuck :
          (arg : ℕ) (rest : Bytes)
          → length rest ≤ most
          → decode_map limits len dec arg rest ≢ err stuck
      unfolding decode_map
      decode_map-ne-stuck arg rest room h =
          grind (arith, decode_pairs-ne-stuck dec shrinks arg most rest lasts room, map_of-ne-stuck)

      decode_body-ne-stuck :
          (mt ai arg : ℕ) (rest : Bytes)
          → length rest ≤ most
          → decode_body limits len dec mt ai arg rest ≢ err stuck
      unfolding decode_body
      decode_body-ne-stuck mt ai arg rest room h = grind (
        arith,
        read_string-ne-stuck arg rest,
        decode_array-ne-stuck arg rest room,
        decode_map-ne-stuck arg rest room,
        simple_value-ne-stuck ai,
      )

      decode_step-ne-stuck :
          (rest : Bytes) → length rest ≤ suc most → decode_step limits len dec rest ≢ err stuck
      unfolding decode_step
      decode_step-ne-stuck [] room h = cc
      decode_step-ne-stuck (ib ∷ rest) room h =
          elim (>>=-eq-err (read_arg (bit_and ib 0x1f) rest) _ h) [
            | inl e ↦ read_arg-ne-stuck (bit_and ib 0x1f) rest e
            | inr (a, e, h') ↦
                decode_body-ne-stuck (bit_and ib 0xe0) (bit_and ib 0x1f) a.0 a.1
                  (omega (arith, read_arg-le (bit_and ib 0x1f) rest a.1 a.0 e)) h'
          ]

  pub decode_value-Shrinks : (fuel : ℕ) → Shrinks (decode_value limits len fuel)
  unfolding decode_value
  decode_value-Shrinks zero rest r v h = cc
  decode_value-Shrinks (suc fuel) rest r v h =
      decode_step-Shrinks (decode_value limits len fuel) (decode_value-Shrinks fuel) rest r v h

  decode_value-Lasts : (fuel : ℕ) → Lasts (decode_value limits len (suc fuel)) fuel
  unfolding decode_value
  decode_value-Lasts zero [] room h = unfold decode_step in cc
  decode_value-Lasts zero (b ∷ rest) room h = absurd (omega arith)
  decode_value-Lasts (suc fuel) rest room h =
      decode_step-ne-stuck (decode_value limits len (suc fuel)) (decode_value-Shrinks (suc fuel))
        fuel (decode_value-Lasts fuel) rest room h

-- `Decode` ends on every input: the recursion never runs out of fuel.
pub cbor_decode-ne-stuck : (limits : Limits) (input : Bytes) → decode limits input ≢ err stuck
unfolding decode
cbor_decode-ne-stuck limits input h =
    elim (>>=-eq-err (decode_value limits (length input) (suc (length input)) input) _ h) [
      | inl e ↦ decode_value-Lasts limits (length input) (length input) input (omega arith) e
      | inr (a, e, h') ↦ cc
    ]
