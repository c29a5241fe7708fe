-- ===== src/Identity/Wire.antt =====
-- A record over the wire: it comes back, and is verified as it was signed.
use aafp_go.Base.{◌^◌, ◌<◌, Bytes, All}
use aafp_go.Cbor.{Value}
use aafp_go.Cbor.Decode.RoundTrip.Shape.{Fits}
use aafp_go.Identity.{CapabilityDescriptor, AgentRecord}

-- The numbers fit a uint64, those in the metadata their types.
abbrev FitsValue : Bytes × Value → Type 0
FitsValue p = Fits p.1

pub record FitsRecord (r : AgentRecord) : Type 0 where
  pub created : r.created_at < 2 ^ 64
  pub expiry : r.expires_at < 2 ^ 64
  pub algorithm : r.key_algorithm < 2 ^ 64
  pub version : r.record_version < 2 ^ 64
  pub metadata : All (λ (c : CapabilityDescriptor). All FitsValue c.metadata) r.capabilities
