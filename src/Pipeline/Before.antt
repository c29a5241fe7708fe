-- ===== src/Pipeline/Before.antt =====
-- What the phases before 18 of pipeline/pipeline.go establish, and how they fail.
use aafp_go.FrameExt.{Extension}
use aafp_go.Cbor.{Limits}
use aafp_go.Frame.{Frame}
use aafp_go.Base.{
  ℕ, ◌≡◌, sym, ap, subst, ◌∙◌, true, false, Bytes, List, [], ◌∷◌, ok, err, ◌==◌, ok_injective,
  >>=-eq-ok, arith,
}
use aafp_go.Frame
use aafp_go.Pipeline.{PipelineError, Context, callbacks_invoked}
use aafp_go.Pipeline.Phases.{
  validate_frame_header, validate_frame_lengths, reject_oversized_before_allocation, read_frame,
  validate_cbor, validate_transcript_state, verify_frame_signatures, verify_frame_agent_id,
  verify_frame_session_state, verify_frame_authorization, verify_required_capabilities,
  decode_frame_extensions, check_unknown_critical_extensions, check_non_negotiated_extensions,
}
use aafp_go.Pipeline.Process.{authenticate, before_semantics, parse, gather_extensions}

-- Everything that the context is asked about a frame was answered by yes.
pub record Authenticated (ctx : Context) (f : Frame) : Type 0 where
  pub transcript : (f.frame_type == Frame.type_handshake) ≡ true → ctx.transcript_state_valid ≡ true
  pub signature : ctx.signature_verified ≡ true
  pub agent_id : ctx.agent_id_verified ≡ true
  pub session : ctx.session_state_valid f.frame_type ≡ true
  pub authorization : ctx.authorized f.frame_type ≡ true
  pub capabilities : ctx.capabilities_sufficient f.frame_type ≡ true

authenticate-Authenticated :
    (limits : Limits) (ctx : Context) (f : Frame)
    → authenticate limits ctx f ≡ ok tt
    → Authenticated ctx f
unfolding authenticate validate_transcript_state verify_frame_signatures verify_frame_agent_id
    verify_frame_session_state verify_frame_authorization verify_required_capabilities
authenticate-Authenticated limits ctx f h = ground arith

parse-read_frame :
    (limits : Limits) (ctx : Context) (input : Bytes) (r : Frame × ℕ)
    → parse limits ctx input ≡ ok r
    → read_frame input ≡ ok r
unfolding parse
parse-read_frame limits ctx input r h =
    let (header, _, h1) = >>=-eq-ok (validate_frame_header input) _ h in
    let (_, _, h2) = >>=-eq-ok (validate_frame_lengths header) _ h1 in
    let (_, _, h3) = >>=-eq-ok (reject_oversized_before_allocation header) _ h2 in
    let (q, read, h4) = >>=-eq-ok (read_frame input) _ h3 in
    let (_, _, h5) = >>=-eq-ok (validate_cbor limits q.0) _ h4 in read ∙ h5

pub before_semantics-Authenticated :
    (limits : Limits) (ctx : Context) (input : Bytes) (f : Frame) (exts : List Extension)
    → before_semantics limits ctx input ≡ ok (f, exts)
    → ((n : ℕ) × (read_frame input ≡ ok (f, n)))
      × Authenticated ctx f
      × (gather_extensions limits ctx f ≡ ok exts)
unfolding before_semantics
before_semantics-Authenticated limits ctx input f exts h =
    let (q, parsed, h1) = >>=-eq-ok (parse limits ctx input) _ h in
    let (_, passed, h2) = >>=-eq-ok (authenticate limits ctx q.0) _ h1 in
    let (es, gathered, h3) = >>=-eq-ok (gather_extensions limits ctx q.0) _ h2 in
    let same_frame : q.0 ≡ f = ap (λ p. p.0) (ok_injective h3) in
    let same_exts : es ≡ exts = ap (λ p. p.1) (ok_injective h3) in
    (
      (q.1, parse-read_frame limits ctx input q parsed ∙ ap (λ g. ok (g, q.1)) same_frame),
      subst (Authenticated ctx) same_frame (authenticate-Authenticated limits ctx q.0 passed),
      sym (ap (gather_extensions limits ctx) same_frame) ∙ gathered ∙ ap ok same_exts,
    )

-- The phases before 18 fail with their own phase, so no error of theirs counts as a call.
parse-err :
    (limits : Limits) (ctx : Context) (input : Bytes) (e : PipelineError)
    → parse limits ctx input ≡ err e
    → callbacks_invoked e ≡ false
unfolding parse validate_frame_header validate_frame_lengths reject_oversized_before_allocation
    read_frame validate_cbor callbacks_invoked
parse-err limits ctx input e h = ground arith

authenticate-err :
    (limits : Limits) (ctx : Context) (f : Frame) (e : PipelineError)
    → authenticate limits ctx f ≡ err e
    → callbacks_invoked e ≡ false
unfolding authenticate validate_transcript_state verify_frame_signatures verify_frame_agent_id
    verify_frame_session_state verify_frame_authorization verify_required_capabilities
    callbacks_invoked
authenticate-err limits ctx f e h = ground arith

check_unknown-err :
    (ctx : Context) (exts : List Extension) (e : PipelineError)
    → check_unknown_critical_extensions ctx exts ≡ err e
    → callbacks_invoked e ≡ false
unfolding check_unknown_critical_extensions callbacks_invoked
check_unknown-err ctx [] e h = cc
check_unknown-err ctx (x ∷ exts) e h = let rest = check_unknown-err ctx exts e in ground arith

check_non_negotiated-err :
    (ctx : Context) (exts : List Extension) (e : PipelineError)
    → check_non_negotiated_extensions ctx exts ≡ err e
    → callbacks_invoked e ≡ false
unfolding check_non_negotiated_extensions callbacks_invoked
check_non_negotiated-err ctx [] e h = cc
check_non_negotiated-err ctx (x ∷ exts) e h =
    let rest = check_non_negotiated-err ctx exts e in ground arith

decode_frame_extensions-err :
    (f : Frame) (e : PipelineError)
    → decode_frame_extensions f ≡ err e
    → callbacks_invoked e ≡ false
unfolding decode_frame_extensions callbacks_invoked
decode_frame_extensions-err f e h = ground arith

gather_extensions-err :
    (limits : Limits) (ctx : Context) (f : Frame) (e : PipelineError)
    → gather_extensions limits ctx f ≡ err e
    → callbacks_invoked e ≡ false
unfolding gather_extensions
gather_extensions-err limits ctx f e h =
    grind (arith, decode_frame_extensions-err, check_unknown-err, check_non_negotiated-err)

pub before_semantics-err :
    (limits : Limits) (ctx : Context) (input : Bytes) (e : PipelineError)
    → before_semantics limits ctx input ≡ err e
    → callbacks_invoked e ≡ false
unfolding before_semantics
before_semantics-err limits ctx input e h =
    grind (arith, parse-err, authenticate-err, gather_extensions-err)
