-- ===== src/Pipeline/Semantics.antt =====
-- The loop of phase 18 of pipeline/pipeline.go: its counts, its calls and its error.
use aafp_go.Pipeline.Phases.{find_callback}
use aafp_go.FrameExt.{Extension}
use aafp_go.Pipeline.Process.{semantics_loop}
use aafp_go.Base.{
  ℕ, ◌+◌, ◌≤◌, ◌≡◌, refl, true, Bool-cases, inl, inr, ◌⊎◌, List, [], ◌∷◌, ◌++◌, length,
  length-append, All, Option, none, some, ok, err, arith,
}
use aafp_go.Pipeline.{PipelineError, Context, Callback, Call, process_semantics}

All-snoc :
    (P : Call → Type 0) (calls : List Call) (c : Call)
    → All P calls
    → P c
    → All P (calls ++ (c ∷ []))
All-snoc P [] c h p = (p, tt)
All-snoc P (x ∷ calls) c (q, h) p = (q, All-snoc P calls c h p)

Option-cases : (o : Option Callback) → (o ≡ none) ⊎ ((c : Callback) × (o ≡ some c))
Option-cases none = inl refl
Option-cases (some c) = inr (c, refl)

-- What the loop of phase 18 adds to its counts and calls.
module _ (ctx : Context) (callbacks : List Callback) where
  pub loop_counts :
      (exts : List Extension) (count ignored : ℕ) (calls : List Call) (r : ℕ × ℕ)
      → (semantics_loop ctx callbacks exts count ignored calls).0 ≡ ok r
      → (r.0 + length calls
          ≡ count + length (semantics_loop ctx callbacks exts count ignored calls).1)
        × (r.0 + r.1 ≡ count + ignored + length exts)
  unfolding semantics_loop
  loop_counts [] count ignored calls r h = grind arith
  loop_counts (e ∷ exts) count ignored calls r h =
      let passed_over = loop_counts exts count (ignored + 1) calls r in
      let called =
        loop_counts exts (count + 1) ignored (calls ++ ((e.ext_type, e.payload) ∷ [])) r in
      let longer : length (calls ++ ((e.ext_type, e.payload) ∷ [])) ≡ length calls + 1 =
        length-append calls _ in
      ground arith

  pub loop_error :
      (exts : List Extension) (count ignored : ℕ) (calls : List Call) (e : PipelineError)
      → (semantics_loop ctx callbacks exts count ignored calls).0 ≡ err e
      → (e.phase ≡ process_semantics)
        × (1 ≤ length (semantics_loop ctx callbacks exts count ignored calls).1)
  unfolding semantics_loop
  loop_error [] count ignored calls e h = cc
  loop_error (x ∷ exts) count ignored calls e h =
      let passed_over = loop_error exts count (ignored + 1) calls e in
      let called =
        loop_error exts (count + 1) ignored (calls ++ ((x.ext_type, x.payload) ∷ [])) e in
      let longer : length (calls ++ ((x.ext_type, x.payload) ∷ [])) ≡ length calls + 1 =
        length-append calls _ in
      ground arith

  pub loop_negotiated :
      (exts : List Extension) (count ignored : ℕ) (calls : List Call)
      → All (λ c. ctx.negotiated c.0 ≡ true) calls
      → All
          (λ c. ctx.negotiated c.0 ≡ true)
          (semantics_loop ctx callbacks exts count ignored calls).1
  unfolding semantics_loop
  loop_negotiated [] count ignored calls h = h
  loop_negotiated (x ∷ exts) count ignored calls h = elim (Bool-cases (ctx.negotiated x.ext_type)) [
    | inr off ↦ rw (off, semantics_loop) (loop_negotiated exts count (ignored + 1) calls h)
    | inl on ↦
        let grown = All-snoc (λ c. ctx.negotiated c.0 ≡ true) calls (x.ext_type, x.payload) h on in
        rw (on, semantics_loop)
          (elim (Option-cases (find_callback callbacks x.ext_type)) [
            | inl absent ↦
                rw (absent, semantics_loop) (loop_negotiated exts count (ignored + 1) calls h)
            | inr (c, found) ↦
                rw (found, semantics_loop)
                  (elim (Bool-cases (c.process x.payload)) [
                    | inl passes ↦
                        rw (passes, semantics_loop)
                          (loop_negotiated exts (count + 1) ignored _ grown)
                    | inr fails ↦ rw (fails, semantics_loop) grown
                  ])
          ])
  ]
