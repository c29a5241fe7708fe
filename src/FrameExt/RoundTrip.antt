-- ===== src/FrameExt/RoundTrip.antt =====
-- `decode` ends on every input, and reads back what `encode` wrote.
use aafp_go.Base.{
  ℕ, zero, suc, ◌+◌, ◌%◌, ◌^◌, ◌<◌, ◌≤◌, ◌≡◌, ◌≢◌, refl, ap, ◌∙◌, Bool, true, false, ltb, le→ltb,
  ◌==◌, if◌then◌else◌, Bytes, List, [], ◌∷◌, ◌++◌, length, take, drop, All, ok, err, be_bytes,
  from_be, ◌⊎◌, inl, inr, Bool-cases, get_or, from_be-be_bytes, length-append, length-drop,
  take-append, drop-append, append_assoc, append-nil, arith,
}
use aafp_go.FrameExt.{
  Extension, ExtError, header, header_size, encode_loop, encode, decode_one, decode_loop, decode,
  stuck, data_length, cut, incomplete_header, incomplete_data,
}

decode_one_shrinks :
    (input : Bytes) (e : Extension) (rest : Bytes)
    → decode_one input ≡ ok (e, rest)
    → length rest < length input
unfolding decode_one
decode_one_shrinks input e rest h = ground (
  arith,
  length-drop header_size input,
  length-drop (from_be (take 4 (drop 4 input))) (drop header_size input),
)

decode_one_cases :
    (input : Bytes)
    → ((e : Extension) × (rest : Bytes) × (decode_one input ≡ ok (e, rest)))
      ⊎ ((x : ExtError) × (decode_one input ≡ err x) × (x ≢ stuck))
unfolding decode_one
decode_one_cases input = elim (Bool-cases (ltb (length input) header_size)) [
  | inl short ↦ inr (incomplete_header, rw short, λ p. cc)
  | inr long ↦
      elim (Bool-cases (ltb (length (drop header_size input) % 2 ^ 32) (data_length input))) [
        | inl cut ↦ inr (incomplete_data, rw (long, cut), λ p. cc)
        | inr room ↦ inl ((cut input).0, (cut input).1, rw (long, room))
      ]
]

decode_loop-ne-stuck :
    (fuel : ℕ) (input : Bytes) (exts : List Extension)
    → length input ≤ fuel
    → decode_loop fuel input exts ≢ err stuck
unfolding decode_loop
decode_loop-ne-stuck fuel [] exts h = λ e. cc
decode_loop-ne-stuck zero (b ∷ bs) exts h = absurd (omega arith)
decode_loop-ne-stuck (suc fuel) (b ∷ bs) exts h = elim (decode_one_cases (b ∷ bs)) [
  | inl (e, rest, q) ↦
      rw (q, decode_loop)
        (decode_loop-ne-stuck fuel rest (exts ++ (e ∷ []))
          (omega (arith, decode_one_shrinks _ e rest q)))
  | inr (x, q, ne) ↦ rw (q, decode_loop) (λ p. ne (cc))
]

length-header : (e : Extension) → length (header e) ≡ header_size
unfolding be_bytes
length-header e = refl

-- The type is a uint16 and the data a uint32's worth of bytes at most.
abbrev pub IsSendable : Extension → Type 0
IsSendable e = (e.ext_type < 2 ^ 16) × (length e.payload < 2 ^ 32)

abbrev wire : List Extension → Bytes
wire [] = []
wire (e ∷ exts) = header e ++ (e.payload ++ wire exts)

encode_loop-wire :
    (exts : List Extension) (buf : Bytes)
    → All IsSendable exts
    → encode_loop buf exts ≡ ok (buf ++ wire exts)
unfolding encode_loop
encode_loop-wire [] buf h = rw append-nil
encode_loop-wire (e ∷ exts) buf (s, h) = rw (le→ltb 0xffffffff (length e.payload) (omega arith)) (
    encode_loop-wire exts (buf ++ (header e ++ e.payload)) h
    ∙ rw (
      append_assoc buf (header e ++ e.payload) (wire exts),
      append_assoc (header e) e.payload (wire exts),
    ))

flag_read : (b : Bool) → ((if b then 0x01 else 0) == 0x01) ≡ b
flag_read true = refl
flag_read false = refl

decode_loop_step :
    (fuel : ℕ) (input : Bytes) (done : List Extension) (e : Extension) (rest : Bytes)
    → decode_one input ≡ ok (e, rest)
    → decode_loop (suc fuel) input done ≡ decode_loop fuel rest (done ++ (e ∷ []))
unfolding decode_loop
decode_loop_step fuel [] done e rest h = unfold decode_one in cc
decode_loop_step fuel (b ∷ bs) done e rest h = rw (h, decode_loop)

module _ (e : Extension) (rest : Bytes) (s : IsSendable e)
    (small : length (e.payload ++ rest) < 2 ^ 32) where
  type_read : from_be (take 2 (header e ++ (e.payload ++ rest))) ≡ e.ext_type
  type_read = unfold be_bytes in from_be-be_bytes 2 e.ext_type s.0

  size_read : from_be (take 4 (drop 4 (header e ++ (e.payload ++ rest)))) ≡ length e.payload
  size_read =
      let read : from_be (take 4 (drop 4 (header e ++ (e.payload ++ rest))))
          ≡ length e.payload % 2 ^ 32 =
        unfold be_bytes in from_be-be_bytes 4 (length e.payload % 2 ^ 32) (omega arith) in
      omega (arith, read)

  behind : drop header_size (header e ++ (e.payload ++ rest)) ≡ e.payload ++ rest
  behind = unfold be_bytes in refl

  long_enough : ltb (length (header e ++ (e.payload ++ rest))) header_size ≡ false
  long_enough =
      le→ltb _ _ (omega (arith, length-append (header e) (e.payload ++ rest), length-header e))

  decode_one-header : decode_one (header e ++ (e.payload ++ rest)) ≡ ok (e, rest)
  unfolding decode_one
  decode_one-header =
      rw (long_enough, size_read, behind)
        (rw room λ i. ok (
          record {
            ext_type = type_read i;
            critical = flag i;
            payload = take-append e.payload rest i;
          },
          drop-append e.payload rest i,
        ))
    where
      room : ltb (length (e.payload ++ rest) % 2 ^ 32) (length e.payload) ≡ false
      room = le→ltb _ _ (omega (arith, length-append e.payload rest))

      flag : (get_or 0 (header e ++ (e.payload ++ rest)) 2 == 0x01) ≡ e.critical
      flag = unfold be_bytes in flag_read e.critical

-- The wire form of the extensions behind one stays within 32 bits.
decode_loop-wire :
    (exts done : List Extension) (fuel : ℕ)
    → All IsSendable exts
    → length (wire exts) < 2 ^ 32
    → length (wire exts) ≤ fuel
    → decode_loop fuel (wire exts) done ≡ ok (done ++ exts)
decode_loop-wire [] done fuel h small enough = rw append-nil (unfold decode_loop in refl)
decode_loop-wire (e ∷ exts) done zero h small enough =
    absurd (omega (arith, length-header e, length-append (header e) (e.payload ++ wire exts)))
decode_loop-wire (e ∷ exts) done (suc fuel) (s, h) small enough =
    let whole = length-append (header e) (e.payload ++ wire exts) in
    let tail = length-append e.payload (wire exts) in
    let step = decode_one-header e (wire exts) s (omega (arith, whole)) in
    decode_loop_step fuel (header e ++ (e.payload ++ wire exts)) done e (wire exts) step
    ∙ decode_loop-wire exts (done ++ (e ∷ [])) fuel h (omega (arith, whole, tail))
        (omega (arith, whole, tail, length-header e))
    ∙ ap ok (append_assoc done (e ∷ []) exts)

-- `Decode` ends on every input: its loop never runs out of fuel.
pub ext_decode-ne-stuck : (input : Bytes) → decode input ≢ err stuck
unfolding decode
ext_decode-ne-stuck input = decode_loop-ne-stuck (length input) input [] (omega arith)

-- The bytes of a section: eight for each header, and the data.
abbrev pub section_size : List Extension → ℕ
section_size [] = 0
section_size (e ∷ exts) = header_size + (length e.payload + section_size exts)

length-wire : (exts : List Extension) → length (wire exts) ≡ section_size exts
length-wire [] = refl
length-wire (e ∷ exts) = omega (
  arith,
  length-header e,
  length-append (header e) (e.payload ++ wire exts),
  length-append e.payload (wire exts),
  length-wire exts,
)

-- A list of extensions, each with a 16-bit type and less than 2 ^ 32 bytes of data, that takes less
-- than 2 ^ 32 bytes in all is encoded in just those bytes, and `Decode` reads back the list.
pub ext_decode-encode :
    (exts : List Extension)
    → All IsSendable exts
    → section_size exts < 2 ^ 32
    → (bs : Bytes) × (encode exts ≡ ok bs) × (length bs ≡ section_size exts) × (decode bs ≡ ok exts)
unfolding decode encode
ext_decode-encode exts h small =
    let size = length-wire exts in
    (
      wire exts,
      encode_loop-wire exts [] h,
      size,
      decode_loop-wire exts [] (length (wire exts)) h (omega arith) (omega arith),
    )
