-- ===== src/Pipeline/Process.antt =====
-- `Process` of pipeline/pipeline.go: all phases in order, with the calls of callbacks that it makes.
use aafp_go.Frame.{Frame}
use aafp_go.Errors.{protocol_violation}
use aafp_go.FrameExt.{Extension}
use aafp_go.Cbor.{Limits}
use aafp_go.Base.{
  ℕ, ◌+◌, true, false, Bytes, List, [], ◌∷◌, ◌++◌, none, some, Result, ok, err, panic, ◌>>=◌, ◌>>◌,
}
use aafp_go.Pipeline.{
  PipelineError, fail, process_semantics, Context, Callback, Call, ProcessedFrame,
}
use aafp_go.Pipeline.Phases.{
  validate_frame_header, validate_frame_lengths, reject_oversized_before_allocation, read_frame,
  validate_cbor, validate_transcript_state, verify_frame_signatures, verify_frame_agent_id,
  verify_frame_session_state, verify_frame_authorization, verify_required_capabilities,
  decode_frame_extensions, check_unknown_critical_extensions, check_non_negotiated_extensions,
  find_callback,
}

-- What a part of the pipeline returns, and the calls that it makes on the way.
abbrev pub Traced : Type 0 → Type 0
Traced A = Result PipelineError A × List Call

module _ (ctx : Context) (callbacks : List Callback) where
  -- Phase 18: the loop over the extensions, with the counts and the calls so far.
  unfoldable pub semantics_loop : List Extension → ℕ → ℕ → List Call → Traced (ℕ × ℕ)
  semantics_loop [] count ignored calls = (ok (count, ignored), calls)
  semantics_loop (e ∷ exts) count ignored calls = elim (ctx.negotiated e.ext_type) [
    | false ↦ semantics_loop exts count (ignored + 1) calls
    | true ↦ elim (find_callback callbacks e.ext_type) [
      | none ↦ semantics_loop exts count (ignored + 1) calls
      | some c ↦ elim (c.process e.payload) [
        | true ↦ semantics_loop exts (count + 1) ignored (calls ++ ((e.ext_type, e.payload) ∷ []))
        | false ↦ (
          err (fail process_semantics protocol_violation true),
          calls ++ ((e.ext_type, e.payload) ∷ []),
        )
      ]
    ]
  ]

  unfoldable pub process_extension_semantics : List Extension → Traced (ℕ × ℕ)
  process_extension_semantics exts = semantics_loop exts 0 0 []

  -- Phases 18 to 20. `validateFinalState` passes every frame; phase 20 is the return of the result.
  unfoldable pub finish : Result PipelineError (Frame × List Extension) → Traced ProcessedFrame
  finish (ok (f, exts)) =
      let (counts, calls) = process_extension_semantics exts in
      (
        counts >>= λ r.
            ok (record { frame = f; extensions = exts; callback_count = r.0; ignored = r.1 }),
        calls,
      )
  finish (err e) = (err e, [])
  finish panic = (panic, [])

module _ (limits : Limits) (ctx : Context) where
  -- Phases 9 to 14.
  unfoldable pub authenticate : Frame → Result PipelineError (Unit {0})
  authenticate f = do
    validate_transcript_state ctx f
    verify_frame_signatures ctx
    verify_frame_agent_id ctx
    verify_frame_session_state ctx f
    verify_frame_authorization ctx f
    verify_required_capabilities ctx f

  -- Phases 1 to 8: the frame that the bytes hold.
  unfoldable pub parse : Bytes → Result PipelineError (Frame × ℕ)
  parse input = do
    header ← validate_frame_header input
    validate_frame_lengths header
    reject_oversized_before_allocation header
    r ← read_frame input
    validate_cbor limits r.0
    ok r

  -- Phases 15 to 17.
  unfoldable pub gather_extensions : Frame → Result PipelineError (List Extension)
  gather_extensions f = do
    exts ← decode_frame_extensions f
    check_unknown_critical_extensions ctx exts
    check_non_negotiated_extensions ctx exts
    ok exts

  -- Phases 1 to 17.
  unfoldable pub before_semantics : Bytes → Result PipelineError (Frame × List Extension)
  before_semantics input = do
    r ← parse input
    authenticate r.0
    exts ← gather_extensions r.0
    ok (r.0, exts)

  unfoldable pub process : List Callback → Bytes → Traced ProcessedFrame
  process callbacks input = finish ctx callbacks (before_semantics input)
