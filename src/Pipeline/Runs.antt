-- ===== src/Pipeline/Runs.antt =====
-- `Process` of pipeline/pipeline.go on a DATA frame with one extension.
use aafp_go.Frame.{Frame}
use aafp_go.FrameExt.{Extension}
use aafp_go.Pipeline.Before.{Authenticated}
use aafp_go.Cbor.{Limits}
use aafp_go.Errors.{invalid_signature, protocol_violation}
use aafp_go.Base.{
  ℕ, ◌+◌, ◌≡◌, ◌≢◌, ◌↔◌, refl, ap, Bool, true, false, Bytes, List, [], ◌∷◌, length, from_be, ok,
  err, ◌==◌,
}
use aafp_go.Frame
use aafp_go.FrameExt
use aafp_go.Pipeline.{
  verify_signatures, testing_context, default_testing_context, Context, Callback, ProcessedFrame,
  fail, process_semantics, callbacks_invoked,
}
use aafp_go.Pipeline.Phases.{
  validate_frame_header, validate_frame_lengths, reject_oversized_before_allocation, read_frame,
  validate_cbor, validate_transcript_state, verify_frame_signatures, verify_frame_agent_id,
  verify_frame_session_state, verify_frame_authorization, verify_required_capabilities,
  decode_frame_extensions, check_unknown_critical_extensions, check_non_negotiated_extensions,
  find_callback,
}
use aafp_go.Pipeline.Process.{
  process, finish, before_semantics, parse, authenticate, gather_extensions,
  process_extension_semantics, semantics_loop,
}
use aafp_go.Pipeline.Security.{calls-Authenticated, process_ok, callbacks_invoked_iff}

abbrev page : Limits
page = record { max_values = 4096; max_pairs = 4096 }

-- Everything is verified, and the extension type 9 is negotiated.
abbrev verified : Context
verified = record {
  signature_verified = true;
  agent_id_verified = true;
  session_state_valid = λ t. true;
  authorized = λ t. true;
  capabilities_sufficient = λ t. true;
  transcript_state_valid = true;
  negotiated = λ t. t == 9;
  known = λ t. t == 9;
}

abbrev answers : Bool → List Callback
answers b = record { extension_type = 9; process = λ payload. b } ∷ []

abbrev lock : Extension
lock = record { ext_type = 9; critical = true; payload = 3 ∷ [] }

abbrev bytes : Bytes
bytes =
    1
    ∷ 1
    ∷ 0
    ∷ 0
    ∷ 0
    ∷ 0
    ∷ 0
    ∷ 0
    ∷ 0
    ∷ 0
    ∷ 0
    ∷ 9
    ∷ 0
    ∷ 0
    ∷ 0
    ∷ 0
    ∷ 0
    ∷ 0
    ∷ 0
    ∷ 1
    ∷ 0
    ∷ 0
    ∷ 0
    ∷ 0
    ∷ 0
    ∷ 0
    ∷ 0
    ∷ 9
    ∷ 0
    ∷ 9
    ∷ 1
    ∷ 0
    ∷ 0
    ∷ 0
    ∷ 0
    ∷ 1
    ∷ 3
    ∷ (104 ∷ [])

abbrev sent : Frame
sent = record {
  version_byte = 1;
  frame_type = 1;
  flags = 0;
  stream_id = 9;
  extensions = 0 ∷ 9 ∷ 1 ∷ 0 ∷ 0 ∷ 0 ∷ 0 ∷ 1 ∷ (3 ∷ []);
  payload = 104 ∷ [];
}

abbrev result : ProcessedFrame
result = record { frame = sent; extensions = lock ∷ []; callback_count = 1; ignored = 0 }

before_sent : before_semantics page verified bytes ≡ ok (sent, lock ∷ [])
unfolding before_semantics parse authenticate gather_extensions validate_frame_header
    validate_frame_lengths reject_oversized_before_allocation read_frame validate_cbor
    validate_transcript_state verify_frame_signatures verify_frame_agent_id
    verify_frame_session_state verify_frame_authorization verify_required_capabilities
    decode_frame_extensions check_unknown_critical_extensions check_non_negotiated_extensions
    Frame.decode FrameExt.decode from_be
before_sent = refl

process_sent : process page verified (answers true) bytes ≡ (ok result, (9, 3 ∷ []) ∷ [])
unfolding process finish process_extension_semantics semantics_loop find_callback
process_sent = ap (finish verified (answers true)) before_sent

process_refused :
    process page verified (answers false) bytes
    ≡ (err (fail process_semantics protocol_violation true), (9, 3 ∷ []) ∷ [])
unfolding process finish process_extension_semantics semantics_loop find_callback
process_refused = ap (finish verified (answers false)) before_sent

sent_called : (process page verified (answers true) bytes).1 ≢ []
sent_called h = let made = ap (λ r. r.1) process_sent in cc

calls-Authenticated_example :
    (f : Frame) × ((n : ℕ) × (read_frame bytes ≡ ok (f, n))) × Authenticated verified f
calls-Authenticated_example = calls-Authenticated page verified (answers true) bytes sent_called

process_ok_example :
    ((n : ℕ) × (read_frame bytes ≡ ok (sent, n)))
    × Authenticated verified sent
    × (1 ≡ length (process page verified (answers true) bytes).1)
    × (1 + 0 ≡ length result.extensions)
process_ok_example =
    process_ok page verified (answers true) bytes result (ap (λ r. r.0) process_sent)

callbacks_invoked_iff_example :
    (callbacks_invoked (fail process_semantics protocol_violation true) ≡ true)
    ↔ ((process page verified (answers false) bytes).1 ≢ [])
callbacks_invoked_iff_example =
    callbacks_invoked_iff page verified (answers false) bytes
      (fail process_semantics protocol_violation true) (ap (λ r. r.0) process_refused)

-- A peer whose signature was not verified.
abbrev unsigned_peer : Context
unfolding testing_context
unsigned_peer = testing_context (record default_testing_context { sig_verified = false })

before_unsigned :
    before_semantics page unsigned_peer bytes ≡ err (fail verify_signatures invalid_signature true)
unfolding before_semantics parse authenticate gather_extensions validate_frame_header
    validate_frame_lengths reject_oversized_before_allocation read_frame validate_cbor
    validate_transcript_state verify_frame_signatures Frame.decode from_be testing_context
before_unsigned = refl

process_unsigned :
    process page unsigned_peer (answers true) bytes
    ≡ (err (fail verify_signatures invalid_signature true), [])
unfolding process finish
process_unsigned = ap (finish unsigned_peer (answers true)) before_unsigned
