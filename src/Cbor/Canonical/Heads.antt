-- ===== src/Cbor/Canonical/Heads.antt =====
-- The canonical reader of arguments against `encodeHead`.
use aafp_go.Base.{
  ℕ, ◌*◌, ◌^◌, ◌<◌, ◌≡◌, ◌↔◌, sym, ap, ◌∙◌, subst, ltb, Bool-cases, inl, inr, Bytes, ◌∷◌, ◌++◌,
  length, take, drop, bit_or, ok, be_bytes, from_be, be_bytes-from_be, from_be-lt, IsBytes,
  IsBytes-take, length-take, take-append-drop, arith,
}
use aafp_go.Base.Bits.{bit_or_join}
use aafp_go.Cbor.Head.{encode_head, read_width, read_arg_canonical}
use aafp_go.Cbor.Head.RoundTrip.{
  head_ai, head_tail, head_ai-lt, encode_head-parts, read_arg_canonical-head,
}

read_width_inv :
    (w : ℕ) (rest r : Bytes) (v : ℕ)
    → IsBytes rest
    → read_width w rest ≡ ok (v, r)
    → (v < 256 ^ w) × (rest ≡ be_bytes w v ++ r)
unfolding read_width
read_width_inv w rest r v h e = elim (Bool-cases (ltb (length rest) w)) [
  | inl short ↦ absurd (ground (arith, short, e))
  | inr long ↦
      let size = length-take w rest (ground (arith, long)) in
      let value : from_be (take w rest) ≡ v = ground (arith, long, e) in
      let behind : drop w rest ≡ r = ground (arith, long, e) in
      let bytes = IsBytes-take w rest h in
      let small : from_be (take w rest) < 256 ^ w =
        subst (λ k. from_be (take w rest) < 256 ^ k) size (from_be-lt (take w rest) bytes) in
      let same : be_bytes w (from_be (take w rest)) ≡ take w rest =
        subst (λ k. be_bytes k (from_be (take w rest)) ≡ take w rest) size
          (be_bytes-from_be (take w rest) bytes) in
      (
        subst (λ n. n < 256 ^ w) value small,
        sym (take-append-drop w rest) ∙ λ i. (sym same ∙ ap (be_bytes w) value) i ++ behind i,
      )
]

-- A longer form than the shortest is refused.
read_arg_canonical_shortest :
    (ai : ℕ) (rest r : Bytes) (v : ℕ)
    → IsBytes rest
    → read_arg_canonical ai rest ≡ ok (v, r)
    → (v < 2 ^ 64) × (ai ≡ head_ai v) × (rest ≡ head_tail v ++ r)
unfolding read_arg_canonical
read_arg_canonical_shortest ai rest r v h e = ground (
  arith,
  read_width_inv 1 rest r v h,
  read_width_inv 2 rest r v h,
  read_width_inv 4 rest r v h,
  read_width_inv 8 rest r v h,
)

-- The initial byte of a major type tells the additional information.
ai_of_first :
    (m ai v : ℕ)
    → m < 8
    → ai < 32
    → bit_or (m * 32) ai ≡ bit_or (m * 32) (head_ai v)
    → ai ≡ head_ai v
ai_of_first m ai v small low same = omega (
  arith,
  sym (bit_or_join m ai small low) ∙ same ∙ bit_or_join m (head_ai v) small (head_ai-lt v),
)

first_byte : (b c : ℕ) (bs cs : Bytes) → b ∷ bs ≡ c ∷ cs → (b ≡ c) × (bs ≡ cs)
first_byte b c bs cs h = ground arith

-- Behind the initial byte of a major type and additional information below 32, the canonical reader
-- takes an argument and leaves the bytes `r` just where the initial byte and the input are what
-- `encodeHead` writes for a uint64, with `r` behind.
pub read_arg_canonical-encode_head :
    (m ai : ℕ) (rest r : Bytes) (v : ℕ)
    → m < 8
    → ai < 32
    → IsBytes rest
    → (read_arg_canonical ai rest ≡ ok (v, r))
      ↔ ((v < 2 ^ 64) × (bit_or (m * 32) ai ∷ rest ≡ encode_head (m * 32) v ++ r))
read_arg_canonical-encode_head m ai rest r v small low h = (
  λ e.
      let (fits, same, tail) = read_arg_canonical_shortest ai rest r v h e in
      (
        fits,
        (λ i. bit_or (m * 32) (same i) ∷ tail i)
            ∙ ap (λ bs. bs ++ r) (sym (encode_head-parts (m * 32) v)),
      ),
  λ (fits, same).
      let (first, tail) =
        first_byte (bit_or (m * 32) ai) (bit_or (m * 32) (head_ai v)) rest (head_tail v ++ r)
          (same ∙ ap (λ bs. bs ++ r) (encode_head-parts (m * 32) v)) in
      let info = ai_of_first m ai v small low first in
      (λ i. read_arg_canonical (info i) (tail i)) ∙ read_arg_canonical-head v r fits,
)
