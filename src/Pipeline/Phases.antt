-- ===== src/Pipeline/Phases.antt =====
-- The phases of pipeline/pipeline.go, each a function that passes or gives the error of its phase.
use aafp_go.FrameExt.{Extension}
use aafp_go.Cbor.Canonical.{check_canonical}
use aafp_go.Base.{
  ℕ, Bool, true, false, ◌&&◌, ◌||◌, not, ltb, ◌==◌, if◌then◌else◌, Bytes, List, [], ◌∷◌, length,
  get_or, Option, none, some, Result, ok, err, panic, fail_if,
}
use aafp_go.Base.Int.{ℤ, pos, negsuc}
use aafp_go.Cbor.{Limits, to_int64}
use aafp_go.Errors.{
  invalid_signature, handshake_failed, invalid_agent_id, unauthorized, insufficient_capability,
  malformed_frame, serialization_error, frame_too_large, unknown_critical_frame_type,
  unknown_critical_extension, invalid_version as invalid_version_code, invalid_flags,
  reserved_field_nonzero, protocol_violation,
}
use aafp_go.Frame
use aafp_go.Frame.{
  Frame, FrameError, payload_too_large, extension_too_large, invalid_version, unknown_critical_type,
  read_u64,
}
use aafp_go.FrameExt
use aafp_go.Pipeline.{
  validate_header, validate_lengths, reject_oversized, read_payload, decode_cbor,
  validate_transcript, verify_signatures, verify_agent_id, verify_session_state,
  verify_authorization, verify_capabilities, decode_extensions, check_unknown_critical,
  check_non_negotiated, PipelineError, fail, Context, Callback,
}

pub record FrameHeader : Type 0 where
  pub version : ℕ
  pub frame_type : ℕ
  pub flags : ℕ
  pub reserved : ℕ
  pub stream_id : ℕ
  pub payload_len : ℤ
  pub ext_len : ℤ

unfoldable pub validate_frame_header : Bytes → Result PipelineError FrameHeader
unfolding to_int64
validate_frame_header input =
    if ltb (length input) Frame.header_size
    then err (fail validate_header malformed_frame true)
    else if not (get_or 0 input 0 == Frame.version)
    then err (fail validate_header invalid_version_code true)
    else if not (get_or 0 input 3 == 0)
    then err (fail validate_header reserved_field_nonzero true)
    else ok (record {
      version = get_or 0 input 0;
      frame_type = get_or 0 input 1;
      flags = get_or 0 input 2;
      reserved = get_or 0 input 3;
      stream_id = read_u64 4 input;
      payload_len = to_int64 (read_u64 12 input);
      ext_len = to_int64 (read_u64 20 input);
    })

-- A signed length above a limit.
abbrev pub exceeds : ℤ → ℕ → Bool
exceeds (pos n) most = ltb most n
exceeds (negsuc n) most = false

unfoldable pub validate_frame_lengths : FrameHeader → Result PipelineError (Unit {0})
validate_frame_lengths h =
    if exceeds h.payload_len Frame.max_payload_size
    then err (fail validate_lengths frame_too_large false)
    else if exceeds h.ext_len Frame.max_extension_size
    then err (fail validate_lengths frame_too_large false)
    else ok tt

unfoldable pub reject_oversized_before_allocation : FrameHeader → Result PipelineError (Unit {0})
reject_oversized_before_allocation h =
    if exceeds h.payload_len Frame.max_payload_size
    then err (fail reject_oversized frame_too_large false)
    else if exceeds h.ext_len Frame.max_extension_size
    then err (fail reject_oversized frame_too_large false)
    else ok tt

-- The code looks for words in the error's text; the texts of these kinds hold them.
abbrev pub frame_failure : FrameError → PipelineError
frame_failure payload_too_large = fail read_payload frame_too_large false
frame_failure extension_too_large = fail read_payload frame_too_large false
frame_failure invalid_version = fail read_payload invalid_version_code true
frame_failure unknown_critical_type = fail read_payload unknown_critical_frame_type true
frame_failure _ = fail read_payload malformed_frame true

unfoldable pub read_frame : Bytes → Result PipelineError (Frame × ℕ)
read_frame input = elim (Frame.decode input) [
  | ok r ↦ ok r
  | err e ↦ err (frame_failure e)
  | panic ↦ panic
]

abbrev pub bears_cbor : ℕ → Bool
bears_cbor ft =
    ft == Frame.type_handshake
    || ft == Frame.type_rpc_request
    || ft == Frame.type_rpc_response
    || ft == Frame.type_close
    || ft == Frame.type_error

unfoldable pub validate_cbor : Limits → Frame → Result PipelineError (Unit {0})
validate_cbor limits f =
    if bears_cbor f.frame_type && not (length f.payload == 0)
    then elim (check_canonical limits f.payload) [
      | ok u ↦ ok tt
      | err e ↦ err (fail decode_cbor serialization_error true)
      | panic ↦ panic
    ]
    else ok tt

module _ (ctx : Context) where
  unfoldable pub validate_transcript_state : Frame → Result PipelineError (Unit {0})
  validate_transcript_state f =
      fail_if (f.frame_type == Frame.type_handshake && not ctx.transcript_state_valid)
        (fail validate_transcript handshake_failed true)

  unfoldable pub verify_frame_signatures : Result PipelineError (Unit {0})
  verify_frame_signatures =
      fail_if (not ctx.signature_verified) (fail verify_signatures invalid_signature true)

  unfoldable pub verify_frame_agent_id : Result PipelineError (Unit {0})
  verify_frame_agent_id =
      fail_if (not ctx.agent_id_verified) (fail verify_agent_id invalid_agent_id true)

  unfoldable pub verify_frame_session_state : Frame → Result PipelineError (Unit {0})
  verify_frame_session_state f =
      fail_if (not (ctx.session_state_valid f.frame_type))
        (fail verify_session_state protocol_violation true)

  unfoldable pub verify_frame_authorization : Frame → Result PipelineError (Unit {0})
  verify_frame_authorization f =
      fail_if (not (ctx.authorized f.frame_type)) (fail verify_authorization unauthorized true)

  unfoldable pub verify_required_capabilities : Frame → Result PipelineError (Unit {0})
  verify_required_capabilities f =
      fail_if (not (ctx.capabilities_sufficient f.frame_type))
        (fail verify_capabilities insufficient_capability true)

unfoldable pub decode_frame_extensions : Frame → Result PipelineError (List Extension)
decode_frame_extensions f =
    if length f.extensions == 0
    then ok []
    else if f.frame_type == Frame.type_handshake
    then err (fail decode_extensions protocol_violation true)
    else elim (FrameExt.decode f.extensions) [
      | ok exts ↦ ok exts
      | err e ↦ err (fail decode_extensions malformed_frame true)
      | panic ↦ panic
    ]

module _ (ctx : Context) where
  unfoldable pub check_unknown_critical_extensions :
      List Extension → Result PipelineError (Unit {0})
  check_unknown_critical_extensions [] = ok tt
  check_unknown_critical_extensions (e ∷ exts) =
      if e.critical && not (ctx.known e.ext_type)
      then err (fail check_unknown_critical unknown_critical_extension true)
      else check_unknown_critical_extensions exts

  unfoldable pub check_non_negotiated_extensions : List Extension → Result PipelineError (Unit {0})
  check_non_negotiated_extensions [] = ok tt
  check_non_negotiated_extensions (e ∷ exts) =
      if not (ctx.negotiated e.ext_type) && ctx.known e.ext_type
      then err (fail check_non_negotiated invalid_flags true)
      else check_non_negotiated_extensions exts

unfoldable pub find_callback : List Callback → ℕ → Option Callback
find_callback [] t = none
find_callback (c ∷ callbacks) t =
    if c.extension_type == t then some c else find_callback callbacks t
