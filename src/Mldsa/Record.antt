-- ===== src/Mldsa/Record.antt =====
-- A record that an agent signs with its key, at the agent that receives it.
use aafp_go.Identity
use aafp_go.Identity.{IdentityError, AgentRecord}
use aafp_go.Mldsa.{Signature}

-- The record with a signature.
abbrev pub with_signature : AgentRecord → Signature → AgentRecord
with_signature r sig = record r { signature = sig.sig_bytes }
