-- ===== src/Frame/Sound.antt =====
-- `decode` on any input: how much it looks at, and that `encode` gives back what it took.
use native.Mathlib.Decide.{dec_lt}
use aafp_go.Frame.RoundTrip.{decode-encode}
use aafp_go.Base.{
  ℕ, suc, ◌+◌, ◌<◌, ◌≤◌, ◌≡◌, ◌⊎◌, inl, inr, refl, sym, ◌∙◌, ap, Bytes, length, take, drop, [], ◌∷◌,
  ◌++◌, ok, err, be_bytes, from_be, be_bytes-from_be, length-append, length-take, length-drop,
  IsBytes, IsBytes-take, IsBytes-drop, arith, append-nil, subst, get_or-append, slice-append,
  take_add, drop_add, le→ltb,
}
use aafp_go.Frame.Steps.{decode_ok, decode_incomplete, decode_short, decode_inv, read_u64-append}
use aafp_go.Frame.{
  Frame, encode, decode, cut, read_u64, header_size, incomplete, short_header, IsSendable,
  max_extension_size, max_payload_size,
}

cut-append :
    (xs ys : Bytes) (e p : ℕ) → header_size + (e + p) ≤ length xs → cut (xs ++ ys) e p ≡ cut xs e p
cut-append xs ys e p h = λ i. record {
  version_byte = get_or-append 0 xs ys 0 (omega arith) i;
  frame_type = get_or-append 0 xs ys 1 (omega arith) i;
  flags = get_or-append 0 xs ys 2 (omega arith) i;
  stream_id = read_u64-append 4 xs ys (omega arith) i;
  extensions = slice-append header_size e xs ys (omega arith) i;
  payload = behind i;
}
  where
    behind : take p (drop e (drop header_size (xs ++ ys))) ≡ take p (drop e (drop header_size xs))
    behind =
        rw (← drop_add header_size e (xs ++ ys), ← drop_add header_size e xs)
          (slice-append (header_size + e) p xs ys (omega arith))

-- What `decode` returns depends only on the bytes that it says it took: more input behind them
-- changes nothing.
pub decode-append :
    (input more : Bytes) (f : Frame) (n : ℕ)
    → decode input ≡ ok (f, n)
    → decode (input ++ more) ≡ ok (f, n)
decode-append input more f n h =
    let d = decode_inv input f n h in
    let e = read_u64 20 input in
    let p = read_u64 12 input in
    let head = d.header in
    let room : header_size + (e + p) ≤ length input = omega (arith, d.inside, d.size) in
    decode_ok (input ++ more) e p (read_u64-append 20 input more head)
      (read_u64-append 12 input more (omega arith)) (omega (arith, length-append input more))
      (get_or-append 0 input more 0 (omega arith) ∙ d.current) d.payload_small d.extensions_small
      (rw (get_or-append 0 input more 1 (omega arith), get_or-append 0 input more 2 (omega arith))
        d.acceptable)
    ∙ rw (cut-append input more e p room, ← d.size, ← d.parts)

-- A proper prefix of what `encode` wrote for a sendable frame is refused, as a short header or an
-- incomplete frame.
pub decode_truncated :
    (f : Frame) (front back : Bytes) (b : ℕ)
    → IsSendable f
    → encode f ≡ ok (front ++ (b ∷ back))
    → (decode front ≡ err short_header) ⊎ (decode front ≡ err incomplete)
decode_truncated f front back b s h =
    let (bs, encoded, size, decoded) = decode-encode f [] s in
    let same : bs ≡ front ++ (b ∷ back) = cc (encoded, h) in
    let whole : decode (front ++ (b ∷ back)) ≡ ok (f, length bs) =
      subst (λ t. decode t ≡ ok (f, length bs)) (append-nil bs ∙ same) decoded in
    let d = decode_inv (front ++ (b ∷ back)) f (length bs) whole in
    let fewer : length front < length bs =
      omega (arith, ap length same, length-append front (b ∷ back)) in
    elim (dec_lt (length front) header_size) [
      | yes short ↦ inl (decode_short front short)
      | no long ↦ inr (
          decode_incomplete front _ _ (sym (read_u64-append 20 front (b ∷ back) (omega arith)))
            (sym (read_u64-append 12 front (b ∷ back) (omega arith))) (omega arith)
            (omega (arith, d.size))
            (sym (get_or-append 0 front (b ∷ back) 0 (omega arith)) ∙ d.current) d.payload_small
            d.extensions_small)
    ]

read_eight :
    (xs : Bytes) → IsBytes xs → 8 ≤ length xs → be_bytes 8 (from_be (take 8 xs)) ≡ take 8 xs
read_eight xs h room =
    subst (λ k. be_bytes k (from_be (take 8 xs)) ≡ take 8 xs) (length-take 8 xs room)
      (be_bytes-from_be (take 8 xs) (IsBytes-take 8 xs h))

-- The three numbers, the extensions and the payload are consecutive slices.
slices :
    (e p : ℕ) (xs : Bytes)
    → take 8 xs
        ++ (take 8 (drop 8 xs)
            ++ (take 8 (drop 16 xs) ++ (take e (drop 24 xs) ++ take p (drop e (drop 24 xs)))))
      ≡ take (24 + (e + p)) xs
slices e p xs =
    let same : 24 + (e + p) ≡ 8 + (8 + (8 + (e + p))) = omega arith in
    rw same (
      rw (
        take_add 8 (8 + (8 + (e + p))) xs,
        take_add 8 (8 + (e + p)) (drop 8 xs),
        take_add 8 (e + p) (drop 8 (drop 8 xs)),
        take_add e p (drop 8 (drop 8 (drop 8 xs))),
        ← drop_add 8 8 xs,
        ← drop_add 16 8 xs,
      ))

encode-cut :
    (v t c r : ℕ) (xs : Bytes) (e p : ℕ)
    → IsBytes xs
    → read_u64 20 (v ∷ t ∷ c ∷ r ∷ xs) ≡ e
    → read_u64 12 (v ∷ t ∷ c ∷ r ∷ xs) ≡ p
    → e ≤ max_extension_size
    → p ≤ max_payload_size
    → 24 + (e + p) ≤ length xs
    → encode (cut (v ∷ t ∷ c ∷ r ∷ xs) e p) ≡ ok (v ∷ t ∷ c ∷ 0 ∷ take (24 + (e + p)) xs)
unfolding encode
encode-cut v t c r xs e p h he hp small_e small_p room =
    rw (payload_length, ext_length, le→ltb _ _ small_e, le→ltb _ _ small_p)
      (rw (read_eight xs h (omega arith), payload_bytes, ext_bytes, slices e p xs))
  where
    payload_length : length (take p (drop e (drop 24 xs))) ≡ p
    payload_length =
        length-take p (drop e (drop 24 xs))
          (omega (arith, length-drop e (drop 24 xs), length-drop 24 xs))

    ext_length : length (take e (drop 24 xs)) ≡ e
    ext_length = length-take e (drop 24 xs) (omega (arith, length-drop 24 xs))

    payload_bytes : be_bytes 8 p ≡ take 8 (drop 8 xs)
    payload_bytes =
        subst (λ k. be_bytes 8 k ≡ take 8 (drop 8 xs)) hp
          (read_eight (drop 8 xs) (IsBytes-drop 8 xs h) (omega (arith, length-drop 8 xs)))

    ext_bytes : be_bytes 8 e ≡ take 8 (drop 16 xs)
    ext_bytes =
        subst (λ k. be_bytes 8 k ≡ take 8 (drop 16 xs)) he
          (read_eight (drop 16 xs) (IsBytes-drop 16 xs h) (omega (arith, length-drop 16 xs)))

-- Encoding what `decode` returned gives the bytes that it took, with the reserved byte cleared.
pub encode-decode :
    (input : Bytes) (f : Frame) (n : ℕ)
    → IsBytes input
    → decode input ≡ ok (f, n)
    → encode f ≡ ok (take 3 input ++ (0 ∷ drop 4 (take n input)))
encode-decode (v ∷ t ∷ c ∷ r ∷ xs) f n (_, (_, (_, (_, h)))) eq =
    let d = decode_inv (v ∷ t ∷ c ∷ r ∷ xs) f n eq in
    let e = read_u64 20 (v ∷ t ∷ c ∷ r ∷ xs) in
    let p = read_u64 12 (v ∷ t ∷ c ∷ r ∷ xs) in
    let size : n ≡ suc (suc (suc (suc (24 + (e + p))))) = omega (arith, d.size) in
    rw (d.parts, size)
      (encode-cut v t c r xs e p h refl refl d.extensions_small d.payload_small
        (omega (arith, d.inside, d.size)))
encode-decode (v ∷ t ∷ c ∷ []) f n h eq = absurd (omega (arith, (decode_inv _ f n eq).header))
encode-decode (v ∷ t ∷ []) f n h eq = absurd (omega (arith, (decode_inv _ f n eq).header))
encode-decode (v ∷ []) f n h eq = absurd (omega (arith, (decode_inv _ f n eq).header))
encode-decode [] f n h eq = absurd (omega (arith, (decode_inv _ f n eq).header))
