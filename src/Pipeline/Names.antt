-- ===== src/Pipeline/Names.antt =====
-- The `Name`, `String` and `Error` methods of pipeline/pipeline.go. The value of a phase outside the
-- constants does not arise, so the default branch has no clause.
use aafp_go.Base.{◌≡◌, refl, true, if◌then◌else◌, Bytes, ◌++◌}
use aafp_go.Base.Ascii.{ascii, decimal}
use aafp_go.Pipeline.{
  validate_header, validate_lengths, reject_oversized, read_payload, read_extensions, decode_cbor,
  reject_duplicate_keys, reject_non_canonical, validate_transcript, verify_signatures,
  verify_agent_id, verify_session_state, verify_authorization, verify_capabilities,
  decode_extensions, check_unknown_critical, check_non_negotiated, process_semantics,
  validate_final_state, deliver, Phase, number, PipelineError, fail,
}

unfoldable pub name : Phase → Bytes
name validate_header = ascii "validate_frame_header"
name validate_lengths = ascii "validate_lengths"
name reject_oversized = ascii "reject_oversized_before_allocation"
name read_payload = ascii "read_payload"
name read_extensions = ascii "read_extensions"
name decode_cbor = ascii "decode_canonical_cbor"
name reject_duplicate_keys = ascii "reject_duplicate_cbor_keys"
name reject_non_canonical = ascii "reject_non_canonical_cbor"
name validate_transcript = ascii "validate_transcript_state"
name verify_signatures = ascii "verify_signatures"
name verify_agent_id = ascii "verify_agent_id"
name verify_session_state = ascii "verify_session_state"
name verify_authorization = ascii "verify_authorization"
name verify_capabilities = ascii "verify_required_capabilities"
name decode_extensions = ascii "decode_extensions"
name check_unknown_critical = ascii "check_unknown_critical_extensions"
name check_non_negotiated = ascii "check_non_negotiated_extensions"
name process_semantics = ascii "process_extension_semantics"
name validate_final_state = ascii "validate_final_state"
name deliver = ascii "deliver_to_upper_layer"

unfoldable pub phase_string : Phase → Bytes
unfolding name number decimal
phase_string p = ascii "Phase " ++ decimal (number p) ++ ascii " (" ++ name p ++ ascii ")"

-- `Error`, with the message that the record leaves out.
unfoldable pub error_string : PipelineError → Bytes → Bytes
unfolding phase_string decimal
error_string e message =
    ascii "pipeline error at "
    ++ phase_string e.phase
    ++ ascii " (code "
    ++ decimal e.error_code
    ++ ascii ", "
    ++ (if e.fatal then ascii "fatal" else ascii "non-fatal")
    ++ ascii "): "
    ++ message

oversized_text :
    error_string (fail reject_oversized 2002 true) (ascii "frame too large")
    ≡ ascii
        "pipeline error at Phase 3 (reject_oversized_before_allocation) (code 2002, fatal): frame too large"
unfolding error_string phase_string name number decimal
oversized_text = refl
