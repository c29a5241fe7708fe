-- ===== src/Mldsa/Signing.antt =====
-- What is signed with a key pair is verified with it, also from the bytes of the key and the signature.
use aafp_go.Base.{
  ◌≤◌, ◌≡◌, ap, Bool, true, false, not, ◌==◌, Bool-cases, inl, inr, Bytes, length, Option, none,
  some, Result, ok, ok_injective, arith,
}
use aafp_go.Mldsa.{
  Library, PublicKey, SecretKey, Signature, MldsaError, seed_size, no_context, keypair, signed,
  keypair_from_seed, sign, verify, new_public_key, new_signature,
}

-- `Verify` on what the constructors gave.
abbrev checked : Library → Bytes → Result MldsaError PublicKey → Result MldsaError Signature → Bool
checked lib msg (ok pk) (ok sig) = verify lib (some pk) msg (some sig)
checked lib msg _ _ = false

-- What FIPS 204 says of the library's key pairs and signatures.
pub record IsMldsa (lib : Library) : Type 0 where
  pub sizes :
      (seed pk sk : Bytes)
      → lib.key_of_seed seed ≡ some (pk, sk)
      → (length pk ≡ 1952) × (length sk ≡ 4032)
  pub accepted :
      (seed pk sk : Bytes)
      → lib.key_of_seed seed ≡ some (pk, sk)
      → (lib.accepts_public pk ≡ true) × (lib.accepts_private sk ≡ true)
  pub signature_sized :
      (sk random msg context sig : Bytes)
      → lib.sign_with sk random msg context ≡ some sig
      → length sig ≡ 3309
  pub correct :
      (seed pk sk random msg context sig : Bytes)
      → length context ≤ 255
      → lib.key_of_seed seed ≡ some (pk, sk)
      → lib.sign_with sk random msg context ≡ some sig
      → lib.verifies pk sig msg context ≡ true

keypair-some :
    (o : Option (Bytes × Bytes)) (pk : PublicKey) (sk : SecretKey)
    → keypair o ≡ ok (pk, sk)
    → o ≡ some (pk.pk_bytes, sk.sk_bytes)
keypair-some none pk sk h = cc
keypair-some (some (p, s)) pk sk h =
    let pair = ok_injective h in
    ap (λ (q : PublicKey × SecretKey). some (q.0.pk_bytes, q.1.sk_bytes)) pair

signed-some : (o : Option Bytes) (sig : Signature) → signed o ≡ ok sig → o ≡ some sig.sig_bytes
signed-some none sig h = cc
signed-some (some b) sig h = ap (λ (q : Signature). some q.sig_bytes) (ok_injective h)

module _ (lib : Library) where
  made_by :
      (seed : Bytes) (pk : PublicKey) (sk : SecretKey)
      → keypair_from_seed lib seed ≡ ok (pk, sk)
      → (length seed ≡ seed_size) × (lib.key_of_seed seed ≡ some (pk.pk_bytes, sk.sk_bytes))
  unfolding keypair_from_seed
  made_by seed pk sk h = elim (Bool-cases (not (length seed == seed_size))) [
    | inl bad ↦ absurd (let failed = rw bad at h in cc)
    | inr good ↦ (ground arith, keypair-some (lib.key_of_seed seed) pk sk (rw good at h))
  ]

  signed_by :
      (random : Bytes) (sk : SecretKey) (msg : Bytes) (sig : Signature)
      → sign lib random sk msg ≡ ok sig
      → lib.sign_with sk.sk_bytes random msg no_context ≡ some sig.sig_bytes
  unfolding sign
  signed_by random sk msg sig h = elim (Bool-cases (not (lib.accepts_private sk.sk_bytes))) [
    | inl bad ↦ absurd (let failed = rw bad at h in cc)
    | inr good ↦ signed-some (lib.sign_with sk.sk_bytes random msg no_context) sig (rw good at h)
  ]

-- A check of a signature from the bytes of the key and the signature: both are read, and verified.
abbrev pub verify_bytes : Library → Bytes → Bytes → Bytes → Bool
verify_bytes lib pubkey msg sig = checked lib msg (new_public_key lib pubkey) (new_signature sig)

-- A signature made with the secret key of a pair from a seed, on any random bytes, is verified with the
-- public key, also where the key and the signature are read again from their bytes. The library is as
-- FIPS 204 says.
pub verify-sign :
    (lib : Library) (seed random msg : Bytes) (pk : PublicKey) (sk : SecretKey) (sig : Signature)
    → IsMldsa lib
    → keypair_from_seed lib seed ≡ ok (pk, sk)
    → sign lib random sk msg ≡ ok sig
    → (verify lib (some pk) msg (some sig) ≡ true)
      × (new_public_key lib pk.pk_bytes ≡ ok pk)
      × (new_signature sig.sig_bytes ≡ ok sig)
      × (verify_bytes lib pk.pk_bytes msg sig.sig_bytes ≡ true)
unfolding verify new_public_key new_signature
verify-sign lib seed random msg pk sk sig law made by =
    let (_, pair) = made_by lib seed pk sk made in
    let made_sig = signed_by lib random sk msg sig by in
    let (pk_size, _) = law.sizes seed pk.pk_bytes sk.sk_bytes pair in
    let (pk_good, _) = law.accepted seed pk.pk_bytes sk.sk_bytes pair in
    let sig_size = law.signature_sized sk.sk_bytes random msg no_context sig.sig_bytes made_sig in
    let valid =
      law.correct seed pk.pk_bytes sk.sk_bytes random msg no_context sig.sig_bytes (omega arith)
        pair made_sig in
    (ground arith, ground arith, ground arith, ground arith)
