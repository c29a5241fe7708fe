-- ===== src/Mldsa/Runs.antt =====
-- Runs of mldsa/mldsa.go over a stand-in for the library, whose keys and signatures are of one byte
-- repeated.
use mathlib.Core.List.Permᴰ
use aafp_go.Base.{ℕ, zero, suc, true, Bytes, bytes_eq, [], ◌∷◌, length, some}
use aafp_go.Cbor.{Limits}
use aafp_go.Identity
use aafp_go.Identity.{Order, AgentRecord, record_type_v1}
use aafp_go.Mldsa.{Library, PublicKey, SecretKey, Signature}

abbrev repeated : ℕ → ℕ → Bytes
repeated zero b = []
repeated (suc n) b = b ∷ repeated n b

-- A signature is the length of the message, repeated.
abbrev toy : Library
toy = record {
  accepts_public = λ b. true;
  accepts_private = λ b. true;
  generate_key = λ random. some (repeated 1952 1, repeated 4032 2);
  key_of_seed = λ seed. some (repeated 1952 1, repeated 4032 2);
  sign_with = λ sk random msg context. some (repeated 3309 (length msg));
  verifies = λ pk sig msg context. bytes_eq sig (repeated 3309 (length msg));
}

abbrev seed : Bytes
seed = repeated 32 0

abbrev public_key : PublicKey
public_key = record { pk_bytes = repeated 1952 1 }

abbrev secret_key : SecretKey
secret_key = record { sk_bytes = repeated 4032 2 }

abbrev agent : AgentRecord
agent = record {
  record_type = record_type_v1;
  agent_id = repeated 32 7;
  public_key = repeated 1952 1;
  capabilities = [];
  endpoints = [];
  created_at = 10;
  expires_at = 20;
  signature = [];
  key_algorithm = 1;
  record_version = 0;
}

abbrev signature : Signature
signature = record { sig_bytes = repeated 3309 2034 }

abbrev page : Limits
page = record { max_values = 8192; max_pairs = 8192 }
