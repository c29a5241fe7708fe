-- ===== src/Identity/Runs.antt =====
-- Runs of identity/identity.go on a record with one capability, whose metadata has two entries.
use mathlib.Core.List.Permᴰ
use mathlib.Core.List.{Permᴰ}
use aafp_go.Base.{ℕ, zero, suc, ◌≡◌, Bool, Bytes, bytes_eq, [], ◌∷◌, length}
use aafp_go.Cbor.{unsigned, Limits, null}
use aafp_go.Identity.{Order, CapabilityDescriptor, AgentRecord, record_type_v1, constant_time_eq}
use aafp_go.Identity.Equal.{constant_time_eq-bytes_eq}

-- A stand-in for SHA-256: the number of bytes, 32 times.
abbrev repeated : ℕ → ℕ → Bytes
repeated zero b = []
repeated (suc n) b = b ∷ repeated n b

abbrev counts : Bytes → Bytes
counts bs = repeated 32 (length bs)

abbrev stored : ℕ → Order
stored i es = es

-- The other way round where there are two entries.
abbrev flipped : ℕ → Order
flipped i (a ∷ b ∷ []) = b ∷ a ∷ []
flipped i es = es

abbrev search : CapabilityDescriptor
search = record { name = 115 ∷ []; metadata = (2 ∷ [], unsigned 7) ∷ (1 ∷ [], null) ∷ [] }

abbrev agent : AgentRecord
agent = record {
  record_type = record_type_v1;
  agent_id = counts (1 ∷ 2 ∷ 3 ∷ []);
  public_key = 1 ∷ 2 ∷ 3 ∷ [];
  capabilities = search ∷ [];
  endpoints = [];
  created_at = 10;
  expires_at = 20;
  signature = 9 ∷ [];
  key_algorithm = 1;
  record_version = 0;
}

-- Any signature of one byte.
abbrev accepts : Bytes → Bytes → Bytes → Bool
accepts pubkey msg sig = bytes_eq sig (9 ∷ [])

constant_time_eq-bytes_eq_example :
    constant_time_eq (1 ∷ 2 ∷ []) (1 ∷ 3 ∷ []) ≡ bytes_eq (1 ∷ 2 ∷ []) (1 ∷ 3 ∷ [])
constant_time_eq-bytes_eq_example = constant_time_eq-bytes_eq (1 ∷ 2 ∷ []) (1 ∷ 3 ∷ [])

abbrev page : Limits
page = record { max_values = 4096; max_pairs = 4096 }
