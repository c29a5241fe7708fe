-- ===== src/Identity/Verified.antt =====
-- When `Verify` accepts a record.
use aafp_go.Base.{ℕ, ◌<◌, ◌≡◌, Bool, true, false, not, if◌then◌else◌, Bytes, Result, ok, err}
use aafp_go.Identity.{
  IdentityError, invalid_agent_id, invalid_record_type, unsupported_key_algorithm, signature_failed,
  expired, Order, AgentRecord, record_type_v1, key_alg_mldsa65, signature_input,
}

-- The conditions of RFC-0003 §3.6.
pub record Valid (sha256 : Bytes → Bytes) (orders : ℕ → Order) (r : AgentRecord) (now : ℕ)
    (verify_fn : Bytes → Bytes → Bytes → Bool) : Type 0 where
  pub id_matches : r.agent_id ≡ sha256 r.public_key
  pub type_v1 : r.record_type ≡ record_type_v1
  pub algorithm : r.key_algorithm ≡ key_alg_mldsa65
  pub signed : verify_fn r.public_key (signature_input orders r) r.signature ≡ true
  pub alive : now < r.expires_at

-- The five checks in their order, each with its error.
abbrev Passes : Bool → Bool → Bool → Bool → Bool → Type 0
Passes ids types algorithms signed over =
    (ids ≡ true) × (types ≡ true) × (algorithms ≡ true) × (signed ≡ true) × (over ≡ false)

abbrev pub outcome : Bool → Bool → Bool → Bool → Bool → Result IdentityError (Unit {0})
outcome ids types algorithms signed over =
    if not ids
    then err invalid_agent_id
    else if not types
    then err invalid_record_type
    else if not algorithms
    then err unsupported_key_algorithm
    else if not signed
    then err signature_failed
    else if over
    then err expired
    else ok tt
