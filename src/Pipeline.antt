-- ===== src/Pipeline.antt =====
-- pipeline/pipeline.go: the phases of `Process`, each an operation that passes or gives the error of
-- its phase, in the order of the code. The context and the callbacks are interfaces that the caller
-- implements: records here, a callback's effect being whether it reports an error.
pub mod Phases
pub mod Process
pub mod Semantics
pub mod Before
pub mod Security
pub mod Names
mod Runs
use aafp_go.FrameExt.{Extension}
use aafp_go.Frame.{Frame}
use aafp_go.Base.{ℕ, Bool, true, false, leb, ◌&&◌, Bytes, List}

pub data Phase : Type 0 where
  validate_header validate_lengths reject_oversized read_payload read_extensions : Phase
  decode_cbor reject_duplicate_keys reject_non_canonical : Phase
  validate_transcript verify_signatures verify_agent_id verify_session_state : Phase
  verify_authorization verify_capabilities : Phase
  decode_extensions check_unknown_critical check_non_negotiated process_semantics : Phase
  validate_final_state deliver : Phase

unfoldable pub number : Phase → ℕ
number validate_header = 1
number validate_lengths = 2
number reject_oversized = 3
number read_payload = 4
number read_extensions = 5
number decode_cbor = 6
number reject_duplicate_keys = 7
number reject_non_canonical = 8
number validate_transcript = 9
number verify_signatures = 10
number verify_agent_id = 11
number verify_session_state = 12
number verify_authorization = 13
number verify_capabilities = 14
number decode_extensions = 15
number check_unknown_critical = 16
number check_non_negotiated = 17
number process_semantics = 18
number validate_final_state = 19
number deliver = 20

unfoldable pub is_pre_authentication : Phase → Bool
unfolding number
is_pre_authentication p = leb (number p) 14

unfoldable pub is_authentication : Phase → Bool
unfolding number
is_authentication p = leb 9 (number p) && leb (number p) 14

unfoldable pub is_extension_processing : Phase → Bool
unfolding number
is_extension_processing p = leb 15 (number p) && leb (number p) 18

-- The message's text is left out.
pub record PipelineError : Type 0 where
  pub phase : Phase
  pub error_code : ℕ
  pub fatal : Bool

abbrev pub fail : Phase → ℕ → Bool → PipelineError
fail phase error_code fatal = record { phase = phase; error_code = error_code; fatal = fatal }

-- `PipelineContext`. A Go map from a type to a bool is its function.
pub record Context : Type 0 where
  pub signature_verified : Bool
  pub agent_id_verified : Bool
  pub session_state_valid : ℕ → Bool
  pub authorized : ℕ → Bool
  pub capabilities_sufficient : ℕ → Bool
  pub transcript_state_valid : Bool
  pub negotiated : ℕ → Bool
  pub known : ℕ → Bool

-- A context whose answers are fields.
pub record TestingContext : Type 0 where
  pub sig_verified : Bool
  pub agent_id_ok : Bool
  pub session_valid : Bool
  pub authorized_ok : Bool
  pub capabilities_ok : Bool
  pub transcript_valid : Bool
  pub negotiated_types : ℕ → Bool
  pub known_types : ℕ → Bool

abbrev pub default_testing_context : TestingContext
default_testing_context = record {
  sig_verified = true;
  agent_id_ok = true;
  session_valid = true;
  authorized_ok = true;
  capabilities_ok = true;
  transcript_valid = true;
  negotiated_types = λ t. false;
  known_types = λ t. false;
}

-- The methods by which a `TestingContext` is a `PipelineContext`.
unfoldable pub testing_context : TestingContext → Context
testing_context c = record {
  signature_verified = c.sig_verified;
  agent_id_verified = c.agent_id_ok;
  session_state_valid = λ t. c.session_valid;
  authorized = λ t. c.authorized_ok;
  capabilities_sufficient = λ t. c.capabilities_ok;
  transcript_state_valid = c.transcript_valid;
  negotiated = c.negotiated_types;
  known = c.known_types;
}

-- `ExtensionCallback`: `process` tells whether the callback returns no error.
pub record Callback : Type 0 where
  pub extension_type : ℕ
  pub process : Bytes → Bool

-- A call of a callback: the extension's type and data.
abbrev pub Call : Type 0
Call = ℕ × Bytes

pub record ProcessedFrame : Type 0 where
  pub frame : Frame
  pub extensions : List Extension
  pub callback_count : ℕ
  pub ignored : ℕ

-- `ExtensionCallbacksInvoked`, as the error's phase tells.
unfoldable pub callbacks_invoked : PipelineError → Bool
callbacks_invoked e = elim e.phase [ process_semantics ↦ true | _ ↦ false ]
