-- ===== src/Pipeline/Security.antt =====
-- When callbacks run: only for frames that passed authentication and authorization, and only for
-- negotiated extensions.
use aafp_go.FrameExt.{Extension}
use aafp_go.Pipeline.Phases.{read_frame}
use aafp_go.Frame.{Frame}
use aafp_go.Cbor.{Limits}
use aafp_go.Base.{
  ℕ, ◌+◌, ◌≡◌, ◌≢◌, ◌↔◌, refl, ap, subst, true, false, Bytes, List, [], ◌∷◌, length, All, Result,
  ok, err, panic, ok_injective, >>=-eq-ok, arith,
}
use aafp_go.Pipeline.{
  PipelineError, Context, Callback, ProcessedFrame, Call, callbacks_invoked, is_pre_authentication,
}
use aafp_go.Pipeline.Process.{
  semantics_loop, process_extension_semantics, finish, before_semantics, process,
}
use aafp_go.Pipeline.Semantics.{loop_counts, loop_error, loop_negotiated}
use aafp_go.Pipeline.Before.{Authenticated, before_semantics-Authenticated, before_semantics-err}

pre_authentication_silent :
    (e : PipelineError) → is_pre_authentication e.phase ≡ true → callbacks_invoked e ≡ false
unfolding is_pre_authentication callbacks_invoked
pre_authentication_silent e early = ground arith

none_called : (calls : List Call) → (calls ≢ [] → ⊥) → calls ≡ []
none_called [] h = refl
none_called (call ∷ calls) h = absurd (h (λ same. cc))

-- The same of the phases from 18 on, by what the phases before them returned.
module _ (limits : Limits) (ctx : Context) (callbacks : List Callback) (input : Bytes) where
  finish-calls :
      (x : Result PipelineError (Frame × List Extension))
      → before_semantics limits ctx input ≡ x
      → (finish ctx callbacks x).1 ≢ []
      → (f : Frame) × ((n : ℕ) × (read_frame input ≡ ok (f, n))) × Authenticated ctx f
  unfolding finish
  finish-calls (ok (f, exts)) passes h =
      let (reads, vouched, _) = before_semantics-Authenticated limits ctx input f exts passes in
      (f, reads, vouched)
  finish-calls (err e) passes h = absurd (h refl)
  finish-calls panic passes h = absurd (h refl)

  finish-negotiated :
      (x : Result PipelineError (Frame × List Extension))
      → All (λ c. ctx.negotiated c.0 ≡ true) (finish ctx callbacks x).1
  unfolding finish process_extension_semantics
  finish-negotiated (ok (f, exts)) = loop_negotiated ctx callbacks exts 0 0 [] tt
  finish-negotiated (err e) = tt
  finish-negotiated panic = tt

  finish-ok :
      (x : Result PipelineError (Frame × List Extension)) (r : ProcessedFrame)
      → before_semantics limits ctx input ≡ x
      → (finish ctx callbacks x).0 ≡ ok r
      → ((n : ℕ) × (read_frame input ≡ ok (r.frame, n)))
        × Authenticated ctx r.frame
        × (r.callback_count ≡ length (finish ctx callbacks x).1)
        × (r.callback_count + r.ignored ≡ length r.extensions)
  unfolding finish process_extension_semantics
  finish-ok (ok (f, exts)) r passes h =
      let (counts, looped, built) = >>=-eq-ok (semantics_loop ctx callbacks exts 0 0 []).0 _ h in
      let (reads, vouched, _) = before_semantics-Authenticated limits ctx input f exts passes in
      let (called, all_counted) = loop_counts ctx callbacks exts 0 0 [] counts looped in
      subst
        (λ q.
          ((n : ℕ) × (read_frame input ≡ ok (q.frame, n)))
          × Authenticated ctx q.frame
          × (q.callback_count ≡ length (semantics_loop ctx callbacks exts 0 0 []).1)
          × (q.callback_count + q.ignored ≡ length q.extensions))
        (ok_injective built) (reads, vouched, omega arith, omega arith)
  finish-ok (err e) r passes h = cc
  finish-ok panic r passes h = cc

  finish-err :
      (x : Result PipelineError (Frame × List Extension)) (e : PipelineError)
      → before_semantics limits ctx input ≡ x
      → (finish ctx callbacks x).0 ≡ err e
      → callbacks_invoked e ≡ true ↔ (finish ctx callbacks x).1 ≢ []
  unfolding finish process_extension_semantics callbacks_invoked
  finish-err (ok (f, exts)) e passes h =
      let (phased, called) = loop_error ctx callbacks exts 0 0 [] e (ground arith) in
      (λ _ none_made. let same = ap length none_made in omega arith, λ _. rw phased)
  finish-err (err x) e passes h =
      let quiet = before_semantics-err limits ctx input x passes in
      (λ loud. cc, λ made. absurd (made refl))
  finish-err panic e passes h = cc

module _ (limits : Limits) (ctx : Context) (callbacks : List Callback) (input : Bytes) where
  -- If `Process` calls any callback, the bytes decode to a frame, and the context vouches for it:
  -- signature, agent, session state, authorization, capabilities, and the transcript of a handshake
  -- frame.
  pub calls-Authenticated :
      (process limits ctx callbacks input).1 ≢ []
      → (f : Frame) × ((n : ℕ) × (read_frame input ≡ ok (f, n))) × Authenticated ctx f
  unfolding process
  calls-Authenticated =
      finish-calls limits ctx callbacks input (before_semantics limits ctx input) refl

  -- Every callback that `Process` calls is called for an extension type that was negotiated.
  pub calls_negotiated : All (λ c. ctx.negotiated c.0 ≡ true) (process limits ctx callbacks input).1
  unfolding process
  calls_negotiated =
      finish-negotiated limits ctx callbacks input (before_semantics limits ctx input)

  -- If `Process` returns a frame, the frame is the one that the bytes decode to, the context vouches
  -- for it, its callback count is the number of calls made, and with the ignored ones
  -- they are all the frame's extensions.
  pub process_ok :
      (r : ProcessedFrame)
      → (process limits ctx callbacks input).0 ≡ ok r
      → ((n : ℕ) × (read_frame input ≡ ok (r.frame, n)))
        × Authenticated ctx r.frame
        × (r.callback_count ≡ length (process limits ctx callbacks input).1)
        × (r.callback_count + r.ignored ≡ length r.extensions)
  unfolding process
  process_ok r = finish-ok limits ctx callbacks input (before_semantics limits ctx input) r refl

  -- If `Process` returns an error, `ExtensionCallbacksInvoked` is true of it if and only if a callback
  -- was called.
  pub callbacks_invoked_iff :
      (e : PipelineError)
      → (process limits ctx callbacks input).0 ≡ err e
      → callbacks_invoked e ≡ true ↔ (process limits ctx callbacks input).1 ≢ []
  unfolding process
  callbacks_invoked_iff e =
      finish-err limits ctx callbacks input (before_semantics limits ctx input) e refl

  -- If `Process` returns an error of a phase that `IsPreAuthentication` names, no callback was called:
  -- a call happens only where the error is of the extension group or there is none.
  pub pre_authentication_calls :
      (e : PipelineError)
      → (process limits ctx callbacks input).0 ≡ err e
      → is_pre_authentication e.phase ≡ true
      → (process limits ctx callbacks input).1 ≡ []
  pre_authentication_calls e h early = none_called (process limits ctx callbacks input).1 (λ called.
      let loud = (callbacks_invoked_iff e h).1 called in
      let silent = pre_authentication_silent e early in cc)
