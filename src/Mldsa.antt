-- ===== src/Mldsa.antt =====
-- mldsa/mldsa.go: ML-DSA-65 keys and signatures around a third-party library, which is an argument:
-- what its constructors accept and what its operations return. Random bytes are an argument too.
-- `none` stands for a nil pointer, and a copy of a slice is the slice.
pub mod Signing
pub mod Record
mod Runs
use aafp_go.Base.{
  ℕ, zero, suc, Bool, true, false, not, ◌==◌, ◌||◌, if◌then◌else◌, Bytes, List, [], ◌∷◌, length,
  Option, none, some, Result, ok, err,
}

abbrev pub public_key_size : ℕ
public_key_size = 1952

abbrev pub secret_key_size : ℕ
secret_key_size = 4032

abbrev pub signature_size : ℕ
signature_size = 3309

abbrev pub seed_size : ℕ
seed_size = 32

abbrev pub key_algorithm_id : ℕ
key_algorithm_id = 1

-- `invalid_public_key` and `invalid_secret_key` are the library's refusals, passed on.
pub data MldsaError : Type 0 where
  invalid_key_length invalid_signature_length invalid_seed_length signing_failed key_gen_failed :
      MldsaError
  invalid_public_key invalid_secret_key : MldsaError

pub record PublicKey : Type 0 where
  pub pk_bytes : Bytes

pub record SecretKey : Type 0 where
  pub sk_bytes : Bytes

pub record Signature : Type 0 where
  pub sig_bytes : Bytes

-- github.com/KarpelesLab/mldsa: which bytes its constructors accept as keys, the key pairs that it makes
-- of random bytes and of a seed, signing with a key, random bytes, a message and a context, and verifying
-- a signature of a message and a context with a key.
pub record Library : Type 0 where
  pub accepts_public : Bytes → Bool
  pub accepts_private : Bytes → Bool
  pub generate_key : Bytes → Option (Bytes × Bytes)
  pub key_of_seed : Bytes → Option (Bytes × Bytes)
  pub sign_with : Bytes → Bytes → Bytes → Bytes → Option Bytes
  pub verifies : Bytes → Bytes → Bytes → Bytes → Bool

-- The nil slice that is passed as the context.
abbrev pub no_context : Bytes
no_context = []

abbrev zeros : ℕ → Bytes
zeros zero = []
zeros (suc n) = 0 ∷ zeros n

-- The keys of a pair that the library made.
abbrev pub keypair : Option (Bytes × Bytes) → Result MldsaError (PublicKey × SecretKey)
keypair none = err key_gen_failed
keypair (some (pk, sk)) = ok (record { pk_bytes = pk }, record { sk_bytes = sk })

abbrev pub signed : Option Bytes → Result MldsaError Signature
signed none = err signing_failed
signed (some sig) = ok (record { sig_bytes = sig })

unfoldable pub new_signature : Bytes → Result MldsaError Signature
new_signature b =
    if not (length b == signature_size)
    then err invalid_signature_length
    else ok (record { sig_bytes = b })

module _ (lib : Library) where
  unfoldable pub new_public_key : Bytes → Result MldsaError PublicKey
  new_public_key b =
      if not (length b == public_key_size)
      then err invalid_key_length
      else if not (lib.accepts_public b)
      then err invalid_public_key
      else ok (record { pk_bytes = b })

  unfoldable pub new_secret_key : Bytes → Result MldsaError SecretKey
  new_secret_key b =
      if not (length b == secret_key_size)
      then err invalid_key_length
      else if not (lib.accepts_private b)
      then err invalid_secret_key
      else ok (record { sk_bytes = b })

  unfoldable pub generate_keypair : Bytes → Result MldsaError (PublicKey × SecretKey)
  generate_keypair random = keypair (lib.generate_key random)

  unfoldable pub keypair_from_seed : Bytes → Result MldsaError (PublicKey × SecretKey)
  keypair_from_seed seed =
      if not (length seed == seed_size)
      then err invalid_seed_length
      else keypair (lib.key_of_seed seed)

  unfoldable pub sign : Bytes → SecretKey → Bytes → Result MldsaError Signature
  sign random sk msg =
      if not (lib.accepts_private sk.sk_bytes)
      then err invalid_secret_key
      else signed (lib.sign_with sk.sk_bytes random msg no_context)

  unfoldable pub sign_deterministic : SecretKey → Bytes → Result MldsaError Signature
  sign_deterministic sk msg =
      if not (lib.accepts_private sk.sk_bytes)
      then err invalid_secret_key
      else signed (lib.sign_with sk.sk_bytes (zeros 32) msg no_context)

  unfoldable pub verify : Option PublicKey → Bytes → Option Signature → Bool
  verify none msg sig = false
  verify (some pk) msg none = false
  verify (some pk) msg (some sig) =
      if not (length pk.pk_bytes == public_key_size) || not (length sig.sig_bytes == signature_size)
      then false
      else if not (lib.accepts_public pk.pk_bytes)
      then false
      else lib.verifies pk.pk_bytes sig.sig_bytes msg no_context
