-- ===== src/Messages/Session.antt =====
-- What a session id is bound to.
use aafp_go.Base.{
  ◌≡◌, ◌⊎◌, inl, inr, sym, ap, ◌∙◌, Bool-cases, Bytes, bytes_eq, bytes_eq_iff, append_split, [],
  ◌∷◌, ◌++◌, length, take, length-append, take-append, arith,
}
use aafp_go.Messages.Keys.{
  hkdf_extract, hkdf_expand, expand_blocks, compute_session_id, session_info_str,
}

module _ (hmac : Bytes → Bytes → Bytes) where
  -- Two inputs of HMAC-SHA256, their keys of one length, with one result.
  abbrev pub MacCollision : Type 0
  MacCollision =
      (k : Bytes) × (k' : Bytes) × (x : Bytes) × (x' : Bytes) × (length k ≡ length k')
      × (((k ≡ k') × (x ≡ x')) → ⊥)
      × (hmac k x ≡ hmac k' x')

  mac_collide :
      (k k' x x' : Bytes)
      → length k ≡ length k'
      → hmac k x ≡ hmac k' x'
      → MacCollision ⊎ ((k ≡ k') × (x ≡ x'))
  mac_collide k k' x x' len h = elim (Bool-cases (bytes_eq k k')) [
    | inl keys ↦ elim (Bool-cases (bytes_eq x x')) [
      | inl inputs ↦ inr ((bytes_eq_iff k k').0 keys, (bytes_eq_iff x x').0 inputs)
      | inr differ ↦
          inl (k, k', x, x', len, (λ same. let self = (bytes_eq_iff x x').1 same.1 in cc), h)
    ]
    | inr differ ↦
        inl (k, k', x, x', len, (λ same. let self = (bytes_eq_iff k k').1 same.0 in cc), h)
  ]

  module _ (size : (key input : Bytes) → length (hmac key input) ≡ 32) where
    -- One block is enough for 32 bytes.
    one_block : (prk info : Bytes) → hkdf_expand hmac prk info 32 ≡ hmac prk (info ++ (1 ∷ []))
    unfolding hkdf_expand expand_blocks
    one_block prk info =
        let block = hmac prk (info ++ (1 ∷ [])) in
        ap (λ n. take n (block ++ [])) (sym (size prk (info ++ (1 ∷ [])))) ∙ take-append block []

    salted : (salt ikm : Bytes) → length salt ≡ 64 → hkdf_extract hmac salt ikm ≡ hmac salt ikm
    unfolding hkdf_extract
    salted salt ikm h = ground arith

    session_id_eq :
        (h cn sn id : Bytes)
        → length cn ≡ 32
        → length sn ≡ 32
        → compute_session_id hmac h cn sn id
          ≡ hmac (hmac (cn ++ sn) (h ++ id)) (session_info_str ++ (1 ∷ []))
    unfolding compute_session_id
    session_id_eq h cn sn id lc ls =
        let salt_size : length (cn ++ sn) ≡ 64 = omega (arith, length-append cn sn) in
        one_block (hkdf_extract hmac (cn ++ sn) (h ++ id)) session_info_str
        ∙ ap (λ prk. hmac prk (session_info_str ++ (1 ∷ [])))
            (salted (cn ++ sn) (h ++ id) salt_size)

    -- Two sessions with one id had the same transcript hash after the client's hello, the same nonces of
    -- both sides and the same server, or two inputs of HMAC-SHA256 with keys of one length and one
    -- result are found. Nonces and hashes have 32 bytes, and HMAC-SHA256 gives 32 bytes.
    pub compute_session_id-binds :
        (h h' cn cn' sn sn' id id' : Bytes)
        → length h ≡ 32
        → length h' ≡ 32
        → length cn ≡ 32
        → length cn' ≡ 32
        → length sn ≡ 32
        → length sn' ≡ 32
        → compute_session_id hmac h cn sn id ≡ compute_session_id hmac h' cn' sn' id'
        → MacCollision ⊎ ((h ≡ h') × (cn ≡ cn') × (sn ≡ sn') × (id ≡ id'))
    compute_session_id-binds h h' cn cn' sn sn' id id' lh lh' lc lc' ls ls' same =
        let prk = hmac (cn ++ sn) (h ++ id) in
        let prk' = hmac (cn' ++ sn') (h' ++ id') in
        let macs =
          sym (session_id_eq h cn sn id lc ls) ∙ same ∙ session_id_eq h' cn' sn' id' lc' ls' in
        let prk_len = size (cn ++ sn) (h ++ id) ∙ sym (size (cn' ++ sn') (h' ++ id')) in
        let salt_len : length (cn ++ sn) ≡ length (cn' ++ sn') =
          omega (arith, length-append cn sn, length-append cn' sn') in
        elim (mac_collide prk prk' _ _ prk_len macs) [
          | inl c ↦ inl c
          | inr (prks, infos) ↦
              elim (mac_collide (cn ++ sn) (cn' ++ sn') (h ++ id) (h' ++ id') salt_len prks) [
                | inl c ↦ inl c
                | inr (salts, ikms) ↦
                    let (clients, servers) = append_split cn cn' sn sn' (lc ∙ sym lc') salts in
                    let (hashes, ids) = append_split h h' id id' (lh ∙ sym lh') ikms in
                    inr (hashes, clients, servers, ids)
              ]
        ]
