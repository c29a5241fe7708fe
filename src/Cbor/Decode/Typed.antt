-- ===== src/Cbor/Decode/Typed.antt =====
-- What `Decode` returns fits its Go types.
use aafp_go.Cbor.Head.{read_arg, read_width}
use aafp_go.Base.{
  ℕ, zero, suc, ◌^◌, ◌<◌, ◌≤◌, ◌≡◌, ◌⊎◌, inl, inr, true, false, Bool-cases, ltb, Bytes, List, [],
  ◌∷◌, length, take, drop, bit_and, ok, err, >>=-eq-ok, All, IsBytes, IsBytes-take, IsBytes-drop,
  length-take, if◌then◌else◌, from_be, from_be-lt, subst, arith,
}
use aafp_go.Base.Ensures.{Ensures, Ensures-ok, Ensures-err, Ensures-panic, Ensures-if, Ensures-bind}
use aafp_go.Base.Int.{pos, negsuc}
use aafp_go.Cbor.{
  Value, Items, no_items, item, unsigned, negative, byte_string, text_string, array, int_map,
  str_map, boolean, null, negative_overflow, array_too_long, map_too_long, unsupported_major,
  to_int_entries, to_str_entries, Limits, int_of, to_int64, n_int,
}
use aafp_go.Cbor.Decode.{
  Decoder, decode_items, decode_pairs, is_int, all_keys, int_pairs, str_pairs, map_of, simple_value,
  read_string, decode_array, decode_map, decode_body, decode_step, decode_value, decode, max_int,
}
use aafp_go.Cbor.Decode.RoundTrip.Shape.{Fits, FitsItems, FitsInts, FitsStrs, IsInt64}

-- From bytes, a decoder gives a value that fits and leaves bytes.
abbrev Typed : Decoder → Type 0
Typed dec = (rest r : Bytes) (v : Value) → IsBytes rest → dec rest ≡ ok (v, r) → Fits v × IsBytes r

read_width-Typed :
    (w : ℕ) (rest r : Bytes) (v : ℕ)
    → w ≤ 8
    → IsBytes rest
    → read_width w rest ≡ ok (v, r)
    → (v < 256 ^ w) × IsBytes r
unfolding read_width
read_width-Typed w rest r v narrow h e = elim (Bool-cases (ltb (length rest) w)) [
  | inl short ↦ absurd (ground (arith, short, e))
  | inr long ↦
      let size = length-take w rest (ground (arith, long)) in
      let value : from_be (take w rest) ≡ v = ground (arith, long, e) in
      let behind : drop w rest ≡ r = ground (arith, long, e) in
      let small = from_be-lt (take w rest) (IsBytes-take w rest h) in
      (
        subst (λ x. x < 256 ^ w) value (subst (λ k. from_be (take w rest) < 256 ^ k) size small),
        subst IsBytes behind (IsBytes-drop w rest h),
      )
]

read_arg-Typed :
    (ai : ℕ) (rest r : Bytes) (v : ℕ)
    → IsBytes rest
    → read_arg ai rest ≡ ok (v, r)
    → (v < 2 ^ 64) × IsBytes r
unfolding read_arg
read_arg-Typed ai rest r v h e = ground (
  arith,
  read_width-Typed 1 rest r v (omega arith) h,
  read_width-Typed 2 rest r v (omega arith) h,
  read_width-Typed 4 rest r v (omega arith) h,
  read_width-Typed 8 rest r v (omega arith) h,
)

abbrev FitsPairs : List (Value × Value) → Type 0
FitsPairs = All (λ p. Fits p.0 × Fits p.1)

int_of-IsInt64 : (k : Value) → is_int k ≡ true → Fits k → IsInt64 (int_of k)
unfolding int_of to_int64
int_of-IsInt64 (unsigned n) is h = elim (Bool-cases (ltb n (2 ^ 63))) [
  | inl small ↦ rw small (ground (arith, small))
  | inr large ↦ rw large (ground (arith, large, h))
]
int_of-IsInt64 (negative (pos n)) is h = absurd h
int_of-IsInt64 (negative (negsuc n)) is h = h
int_of-IsInt64 (byte_string s) is h = cc
int_of-IsInt64 (text_string s) is h = cc
int_of-IsInt64 (array xs) is h = cc
int_of-IsInt64 (int_map es) is h = cc
int_of-IsInt64 (str_map es) is h = cc
int_of-IsInt64 (boolean b) is h = cc
int_of-IsInt64 null is h = cc

int_pairs-Fits :
    (ps : List (Value × Value))
    → all_keys is_int ps ≡ true
    → FitsPairs ps
    → FitsInts (to_int_entries (int_pairs ps))
int_pairs-Fits [] is h = tt
int_pairs-Fits ((k, v) ∷ ps) is ((hk, hv), h) =
    (int_of-IsInt64 k (ground (arith, is)) hk, hv, int_pairs-Fits ps (ground (arith, is)) h)

str_pairs-Fits :
    (ps : List (Value × Value)) → FitsPairs ps → FitsStrs (to_str_entries (str_pairs ps))
str_pairs-Fits [] h = tt
str_pairs-Fits ((k, v) ∷ ps) ((_, hv), h) = (hv, str_pairs-Fits ps h)

map_of-Fits : (ps : List (Value × Value)) (m : Value) → FitsPairs ps → map_of ps ≡ ok m → Fits m
unfolding map_of
map_of-Fits ps m h e = elim (Bool-cases (all_keys is_int ps)) [
  | inl ints ↦
      let same : int_map (to_int_entries (int_pairs ps)) ≡ m = ground (arith, ints, e) in
      subst Fits same (int_pairs-Fits ps ints h)
  | inr no_ints ↦
      let same : str_map (to_str_entries (str_pairs ps)) ≡ m = ground (arith, no_ints, e) in
      subst Fits same (str_pairs-Fits ps h)
]

pub simple_value-cases :
    (ai : ℕ) (v : Value)
    → simple_value ai ≡ ok v
    → (v ≡ boolean false) ⊎ (v ≡ boolean true) ⊎ (v ≡ null)
unfolding simple_value
simple_value-cases ai v h = ground arith

simple_value-Fits : (ai : ℕ) (v : Value) → simple_value ai ≡ ok v → Fits v
simple_value-Fits ai v h = elim (simple_value-cases ai v h) [
  | inl off ↦ rw off tt
  | inr (inl on) ↦ rw on tt
  | inr (inr nothing) ↦ rw nothing tt
]

module _ (dec : Decoder) (typed : Typed dec) where
  decode_items-Typed :
      (n : ℕ) (rest r : Bytes) (xs : Items)
      → IsBytes rest
      → decode_items dec n rest ≡ ok (xs, r)
      → FitsItems xs × IsBytes r
  unfolding decode_items
  decode_items-Typed zero rest r no_items b h = (tt, subst IsBytes (ground (arith, h)) b)
  decode_items-Typed zero rest r (item v xs) b h = absurd (ground (arith, h))
  decode_items-Typed (suc n) rest r xs b h =
      let (p, e, h') = >>=-eq-ok (dec rest) _ h in
      let (q, e', h'') = >>=-eq-ok (decode_items dec n p.1) _ h' in
      let (fits, bytes) = typed rest p.1 p.0 b e in
      let (more, bytes') = decode_items-Typed n p.1 q.1 q.0 bytes e' in
      let same : item p.0 q.0 ≡ xs = ground (arith, h'') in
      let behind : q.1 ≡ r = ground (arith, h'') in
      (subst FitsItems same (fits, more), subst IsBytes behind bytes')

  decode_pairs-Typed :
      (n : ℕ) (rest r : Bytes) (ps : List (Value × Value))
      → IsBytes rest
      → decode_pairs dec n rest ≡ ok (ps, r)
      → FitsPairs ps × IsBytes r
  unfolding decode_pairs
  decode_pairs-Typed zero rest r [] b h = (tt, subst IsBytes (ground (arith, h)) b)
  decode_pairs-Typed zero rest r (p ∷ ps) b h = absurd (ground (arith, h))
  decode_pairs-Typed (suc n) rest r ps b h =
      let (k, e, h') = >>=-eq-ok (dec rest) _ h in
      let (v, f, h'') = >>=-eq-ok (dec k.1) _ h' in
      let (q, g, h''') = >>=-eq-ok (decode_pairs dec n v.1) _ h'' in
      let (key, bytes) = typed rest k.1 k.0 b e in
      let (value, bytes') = typed k.1 v.1 v.0 bytes f in
      let (more, bytes'') = decode_pairs-Typed n v.1 q.1 q.0 bytes' g in
      let same : (k.0, v.0) ∷ q.0 ≡ ps = ground (arith, h''') in
      let behind : q.1 ≡ r = ground (arith, h''') in
      (subst FitsPairs same ((key, value), more), subst IsBytes behind bytes'')

-- The value fits, and the rest is bytes.
abbrev IsTyped : Value × Bytes → Type 0
IsTyped q = Fits q.0 × IsBytes q.1

module _ (limits : Limits) (len : ℕ) where
  read_string-Typed :
      (arg : ℕ) (rest : Bytes) (q : Bytes × Bytes)
      → IsBytes rest
      → read_string limits len arg rest ≡ ok q
      → IsBytes q.1
  unfolding read_string
  read_string-Typed arg rest q b h =
      let behind : drop arg rest ≡ q.1 = ground (arith, h) in
      subst IsBytes behind (IsBytes-drop arg rest b)

  module _ (dec : Decoder) (typed : Typed dec) where
    decode_array-Ensures :
        (arg : ℕ) (rest : Bytes)
        → IsBytes rest
        → Ensures IsTyped (decode_array limits len dec arg rest)
    unfolding decode_array
    decode_array-Ensures arg rest b =
        Ensures-if IsTyped _ _ _ (Ensures-err IsTyped array_too_long) (
          Ensures-if IsTyped _ _ _ (Ensures-panic IsTyped) (
            Ensures-bind IsTyped (decode_items dec arg rest) _ (λ q h.
              let (fits, bytes) = decode_items-Typed dec typed arg rest q.1 q.0 b h in
              Ensures-ok IsTyped (array q.0, q.1) (fits, bytes))))

    decode_map-Ensures :
        (arg : ℕ) (rest : Bytes)
        → IsBytes rest
        → Ensures IsTyped (decode_map limits len dec arg rest)
    unfolding decode_map
    decode_map-Ensures arg rest b = Ensures-if IsTyped _ _ _ (Ensures-err IsTyped map_too_long) (
        Ensures-if IsTyped _ _ _ (Ensures-panic IsTyped) (
          Ensures-bind IsTyped (decode_pairs dec arg rest) _ (λ q h.
            let (fits, bytes) = decode_pairs-Typed dec typed arg rest q.1 q.0 b h in
            Ensures-bind IsTyped (map_of q.0) _
              (λ m e. Ensures-ok IsTyped (m, q.1) (map_of-Fits q.0 m fits e, bytes)))))

    decode_negative-Ensures :
        (arg : ℕ) (rest : Bytes)
        → IsBytes rest
        → Ensures IsTyped
            (if ltb max_int arg then err negative_overflow else ok (n_int (negsuc arg), rest))
    unfolding n_int
    decode_negative-Ensures arg rest b = elim (Bool-cases (ltb max_int arg)) [
      | inl large ↦ rw large (Ensures-err IsTyped negative_overflow)
      | inr small ↦
          rw small (Ensures-ok IsTyped (negative (negsuc arg), rest) (ground (arith, small), b))
    ]

    decode_body-Ensures :
        (mt ai arg : ℕ) (rest : Bytes)
        → arg < 2 ^ 64
        → IsBytes rest
        → Ensures IsTyped (decode_body limits len dec mt ai arg rest)
    unfolding decode_body
    decode_body-Ensures mt ai arg rest small b =
        Ensures-if IsTyped _ _ _ (Ensures-ok IsTyped (unsigned arg, rest) (small, b)) (
          Ensures-if IsTyped _ _ _ (decode_negative-Ensures arg rest b) (
            Ensures-if IsTyped _ _ _
              (Ensures-bind IsTyped (read_string limits len arg rest) _ (λ q h.
                Ensures-ok IsTyped (byte_string q.0, q.1) (tt, read_string-Typed arg rest q b h)))
              (Ensures-if IsTyped _ _ _
                (Ensures-bind IsTyped (read_string limits len arg rest) _ (λ q h.
                  Ensures-ok IsTyped (text_string q.0, q.1) (tt, read_string-Typed arg rest q b h)))
                (Ensures-if IsTyped _ _ _ (decode_array-Ensures arg rest b) (
                  Ensures-if IsTyped _ _ _ (decode_map-Ensures arg rest b) (
                    Ensures-if IsTyped _ _ _
                      (Ensures-bind IsTyped (simple_value ai) _
                        (λ v h. Ensures-ok IsTyped (v, rest) (simple_value-Fits ai v h, b)))
                      (Ensures-err IsTyped unsupported_major)))))))

    decode_step-Typed : Typed (decode_step limits len dec)
    unfolding decode_step
    decode_step-Typed [] r v b h = absurd (ground (arith, h))
    decode_step-Typed (ib ∷ rest) r v (_, b) h =
        (Ensures-bind IsTyped (read_arg (bit_and ib 0x1f) rest) _ (λ a e.
            let (small, bytes) = read_arg-Typed (bit_and ib 0x1f) rest a.1 a.0 b e in
            decode_body-Ensures (bit_and ib 0xe0) (bit_and ib 0x1f) a.0 a.1 small bytes)).holds
          (v, r) h

  decode_value-Typed : (fuel : ℕ) → Typed (decode_value limits len fuel)
  unfolding decode_value
  decode_value-Typed zero rest r v b h = absurd (ground (arith, h))
  decode_value-Typed (suc fuel) rest r v b h =
      decode_step-Typed (decode_value limits len fuel) (decode_value-Typed fuel) rest r v b h

-- What `Decode` makes of bytes fits its Go types, at every level: an unsigned integer is below 2 ^ 64, a
-- negative one and a map's integer key are int64s.
pub decode-Fits :
    (limits : Limits) (input : Bytes) (v : Value) (n : ℕ)
    → IsBytes input
    → decode limits input ≡ ok (v, n)
    → Fits v
unfolding decode
decode-Fits limits input v n b h =
    let (q, e, h') =
      >>=-eq-ok (decode_value limits (length input) (suc (length input)) input) _ h in
    let same : q.0 ≡ v = ground (arith, h') in
    subst Fits same
      (decode_value-Typed limits (length input) (suc (length input)) input q.1 q.0 b e).0
