-- ===== src/Cbor/Decode/RoundTrip/Injective.antt =====
-- What the decoder's reading back says of the encoder: no encoding begins another.
use aafp_go.Base.{
  ℕ, ◌≤◌, ◌≡◌, sym, ap, ◌∙◌, Bytes, ◌++◌, length, drop, drop-append, ok_injective, arith, ◌↔◌, [],
  append-nil,
}
use aafp_go.Cbor.{Value, Limits}
use aafp_go.Cbor.Encode.{encode}
use aafp_go.Cbor.Decode.{decode, max_int}
use aafp_go.Cbor.Decode.RoundTrip.Shape.{Fits, canon}
use aafp_go.Cbor.Decode.RoundTrip.Parts.{Room}
use aafp_go.Cbor.Decode.RoundTrip.Idempotent.{encode-canon}
use aafp_go.Cbor.Decode.RoundTrip.Fuel.{cbor_decode-encode}

-- As many elements as an input of this length may need.
abbrev wide : ℕ → Limits
wide len = record { max_values = len; max_pairs = len }

-- Two encodings, each with something behind it, are the same bytes only where the values have the same
-- canonical form and what is behind them is the same. The bytes are no more than an int counts, and
-- the values' numbers fit their Go types.
pub encode-prefix_free :
    (v w : Value) (r s : Bytes)
    → Fits v
    → Fits w
    → length (encode v ++ r) ≤ max_int
    → encode v ++ r ≡ encode w ++ s
    → (canon v ≡ canon w) × (r ≡ s)
encode-prefix_free v w r s fv fw small same =
    let len = length (encode v ++ r) in
    let len_w : length (encode w ++ s) ≡ len = ap length (sym same) in
    let limits = wide len in
    let room_v : Room limits len = record {
      is_int_len = small;
      values_fit = omega arith;
      pairs_fit = omega arith;
    } in
    let room_w : Room limits (length (encode w ++ s)) = record {
      is_int_len = omega arith;
      values_fit = omega arith;
      pairs_fit = omega arith;
    } in
    let dv = cbor_decode-encode limits v r fv room_v in
    let dw = cbor_decode-encode limits w s fw room_w in
    let both = ok_injective (sym dv ∙ ap (decode limits) same ∙ dw) in
    let lengths : length (encode v) ≡ length (encode w) = ap (λ (p : Value × ℕ). p.1) both in
    (
      ap (λ (p : Value × ℕ). p.0) both,
      sym (drop-append (encode v) r)
          ∙ ap (drop (length (encode v))) same
          ∙ ap (λ n. drop n (encode w ++ s)) lengths
          ∙ drop-append (encode w) s,
    )

-- Two values have one encoding just where they have one canonical form, if the numbers fit their Go
-- types and an int counts the bytes: encoding is by the canonical form alone, and loses nothing of it.
pub encode_iff :
    (v w : Value)
    → Fits v
    → Fits w
    → length (encode v) ≤ max_int
    → (encode v ≡ encode w) ↔ (canon v ≡ canon w)
encode_iff v w fv fw small = (
  λ same.
      let none_v = append-nil (encode v) in
      let none_w = append-nil (encode w) in
      (encode-prefix_free v w [] [] fv fw (rw none_v small) (none_v ∙ same ∙ sym none_w)).0,
  λ same. sym (encode-canon v) ∙ ap encode same ∙ encode-canon w,
)
