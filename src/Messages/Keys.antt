-- ===== src/Messages/Keys.antt =====
-- What handshake.go derives with HMAC-SHA256, which is a function of key and data that gives 32 bytes.
-- An `append` to an argument copies: no slice here has room behind its last byte.
use aafp_go.Base.{
  ℕ, zero, suc, ◌+◌, ◌-◌, ◌*◌, ◌/◌, ◌%◌, ◌≤◌, ◌≡◌, ◌↔◌, ◌⊎◌, leb, leb→le, take-append, drop-append,
  take_add, refl, sym, ap, ◌∙◌, Bool, true, false, not, ◌==◌, if◌then◌else◌, Bytes, bytes_eq,
  bytes_eq_iff, [], ◌∷◌, ◌++◌, length, take, length-append, length-take, take-append_le, Bool-cases,
  inl, inr, arith,
}

-- "aafp-v1-handshake"
abbrev pub domain_separator : Bytes
domain_separator =
    97 ∷ 97 ∷ 102 ∷ 112 ∷ 45 ∷ 118 ∷ 49 ∷ 45 ∷ 104 ∷ 97 ∷ 110 ∷ 100 ∷ 115 ∷ 104 ∷ 97 ∷ 107 ∷ 101
    ∷ []

-- "aafp-session-id-v1"
abbrev pub session_info_str : Bytes
session_info_str =
    97 ∷ 97 ∷ 102 ∷ 112 ∷ 45 ∷ 115 ∷ 101 ∷ 115 ∷ 115 ∷ 105 ∷ 111 ∷ 110 ∷ 45 ∷ 105 ∷ 100 ∷ 45 ∷ 118
    ∷ 49 ∷ []

-- "aafp-v1-dos-mac-key"
abbrev pub dos_mac_info_str : Bytes
dos_mac_info_str =
    97 ∷ 97 ∷ 102 ∷ 112 ∷ 45 ∷ 118 ∷ 49 ∷ 45 ∷ 100 ∷ 111 ∷ 115 ∷ 45 ∷ 109 ∷ 97 ∷ 99 ∷ 45 ∷ 107 ∷ 101
    ∷ 121 ∷ []

unfoldable pub signature_input : Bytes → Bytes
signature_input h = domain_separator ++ h

abbrev pub hash_len : ℕ
hash_len = 32

abbrev block_count : ℕ → ℕ
block_count len = (len + hash_len - 1) / hash_len

abbrev zeros : ℕ → Bytes
zeros zero = []
zeros (suc n) = 0 ∷ zeros n

le-or-more : (a b : ℕ) → (a ≤ b) ⊎ ((d : ℕ) × (a ≡ b + d))
le-or-more a b = elim (Bool-cases (leb a b)) [
  | inl within ↦ inl (leb→le a b within)
  | inr over ↦ inr (a - b, ground arith)
]

take-take : (m n : ℕ) (xs : Bytes) → m ≤ n → take m (take n xs) ≡ take m xs
take-take zero n xs h = refl
take-take (suc m) zero xs h = absurd (omega arith)
take-take (suc m) (suc n) [] h = refl
take-take (suc m) (suc n) (x ∷ xs) h = ap (λ tail. x ∷ tail) (take-take m n xs (omega arith))

take_past : (xs ys : Bytes) (d : ℕ) → take (length xs + d) (xs ++ ys) ≡ xs ++ take d ys
take_past xs ys d =
    let front = take-append xs ys in
    let back = drop-append xs ys in take_add (length xs) d (xs ++ ys) ∙ rw (front, back) refl

module _ (hmac : Bytes → Bytes → Bytes) where
  unfoldable pub hkdf_extract : Bytes → Bytes → Bytes
  hkdf_extract salt ikm = hmac (if length salt == 0 then zeros 32 else salt) ikm

  -- The loop from `i` on, for so many rounds, with the last block: what it appends to `okm`.
  unfoldable pub expand_blocks : Bytes → Bytes → ℕ → ℕ → Bytes → Bytes
  expand_blocks prk info zero i t = []
  expand_blocks prk info (suc rounds) i t =
      let next = hmac prk (t ++ (info ++ (i % 256 ∷ []))) in
      next ++ expand_blocks prk info rounds (i + 1) next

  unfoldable pub hkdf_expand : Bytes → Bytes → ℕ → Bytes
  unfolding expand_blocks
  hkdf_expand prk info len = take len (expand_blocks prk info (block_count len) 1 [])

  unfoldable pub compute_session_id : Bytes → Bytes → Bytes → Bytes → Bytes
  unfolding hkdf_extract hkdf_expand
  compute_session_id h_after_client_hello client_nonce server_nonce server_agent_id =
      let salt = client_nonce ++ server_nonce in
      let ikm = h_after_client_hello ++ server_agent_id in
      hkdf_expand (hkdf_extract salt ikm) session_info_str 32

  unfoldable pub compute_receiver_mac : Bytes → Bytes → Bytes
  unfolding hkdf_extract hkdf_expand
  compute_receiver_mac receiver_agent_id ch_cbor =
      hmac (hkdf_expand (hkdf_extract [] receiver_agent_id) dos_mac_info_str 32) ch_cbor

  -- `hmac.Equal` compares the bytes.
  unfoldable pub verify_receiver_mac : Bytes → Bytes → Bytes → Bool
  unfolding compute_receiver_mac
  verify_receiver_mac receiver_agent_id ch_cbor expected_mac =
      let computed = compute_receiver_mac receiver_agent_id ch_cbor in
      if not (length computed == length expected_mac) then false else bytes_eq computed expected_mac

  pub verify_receiver_mac_iff :
      (receiver_agent_id ch_cbor mac : Bytes)
      → (verify_receiver_mac receiver_agent_id ch_cbor mac ≡ true)
        ↔ (compute_receiver_mac receiver_agent_id ch_cbor ≡ mac)
  unfolding verify_receiver_mac
  verify_receiver_mac_iff receiver_agent_id ch_cbor mac =
      let computed = compute_receiver_mac receiver_agent_id ch_cbor in
      let same = bytes_eq_iff computed mac in
      (
        λ h. ground (arith, same),
        λ h.
            let lens : length computed ≡ length mac = ap length h in
            let yes = same.1 h in ground arith,
      )

  module _ (size : (key input : Bytes) → length (hmac key input) ≡ 32) (prk info : Bytes) where
    length-expand_blocks : (n i : ℕ) (t : Bytes) → length (expand_blocks prk info n i t) ≡ n * 32
    unfolding expand_blocks
    length-expand_blocks zero i t = refl
    length-expand_blocks (suc n) i t =
        let next = hmac prk (t ++ (info ++ (i % 256 ∷ []))) in
        omega (
          arith,
          length-append next (expand_blocks prk info n (i + 1) next),
          size prk (t ++ (info ++ (i % 256 ∷ []))),
          length-expand_blocks n (i + 1) next,
        )

    -- More rounds do not change the first bytes.
    expand_blocks-begins :
        (len m n i : ℕ) (t : Bytes)
        → len ≤ m * 32
        → m ≤ n
        → take len (expand_blocks prk info n i t) ≡ take len (expand_blocks prk info m i t)
    unfolding expand_blocks
    expand_blocks-begins len zero n i t fits less = let none : len ≡ 0 = omega arith in rw none refl
    expand_blocks-begins len (suc m) zero i t fits less = absurd (omega arith)
    expand_blocks-begins len (suc m) (suc n) i t fits less =
        let next = hmac prk (t ++ (info ++ (i % 256 ∷ []))) in
        let block = size prk (t ++ (info ++ (i % 256 ∷ []))) in
        let long = expand_blocks prk info n (i + 1) next in
        let short = expand_blocks prk info m (i + 1) next in
        elim (le-or-more len (length next)) [
          | inl within ↦
              take-append_le len next long within ∙ sym (take-append_le len next short within)
          | inr (d, over) ↦ rw over (
              take_past next long d
              ∙ ap (λ tail. next ++ tail)
                  (expand_blocks-begins d m n (i + 1) next (omega arith) (omega arith))
              ∙ sym (take_past next short d))
        ]

    -- `hkdfExpand` gives as many bytes as it is asked for, and those of a shorter key are the first of a
    -- longer one's. HMAC-SHA256 gives 32 bytes.
    pub hkdf_expand-prefix :
        (m n : ℕ)
        → m ≤ n
        → (length (hkdf_expand prk info n) ≡ n)
          × (take m (hkdf_expand prk info n) ≡ hkdf_expand prk info m)
    unfolding hkdf_expand
    hkdf_expand-prefix m n less =
        let blocks = expand_blocks prk info (block_count n) 1 [] in
        let total = length-expand_blocks (block_count n) 1 [] in
        (
          length-take n blocks (omega arith),
          take-take m n blocks less
              ∙ expand_blocks-begins m (block_count m) (block_count n) 1 [] (omega arith)
                  (omega arith),
        )
