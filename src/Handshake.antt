-- ===== src/Handshake.antt =====
-- handshake/state_machine.go: the handshake state machines of the client and the server.
-- Times and durations are nanoseconds.
pub mod Client
pub mod Server
pub mod Names
use aafp_go.Base.{ℕ, Bool, true, false, ◌==◌, if◌then◌else◌, List, [], ◌∷◌}

abbrev pub default_handshake_timeout : ℕ
default_handshake_timeout = 30_000_000_000

abbrev pub default_close_timeout : ℕ
default_close_timeout = 5_000_000_000

abbrev pub min_handshake_timeout : ℕ
min_handshake_timeout = 10_000_000_000

abbrev pub min_close_timeout : ℕ
min_close_timeout = 1_000_000_000

pub data FrameDisposition : Type 0 where
  frame_accept frame_reject_with_error frame_discard_silently : FrameDisposition

pub data Message : Type 0 where
  client_hello server_hello client_finished : Message

-- The four error types of the package, over the states of a role. The state that a transition was
-- asked for, the frame with the types allowed, the times, and the message that came twice.
pub data HandshakeError (S : Type 0) : Type 0 where
  bad_transition : S → S → HandshakeError S
  unexpected_frame : S → ℕ → List ℕ → HandshakeError S
  timed_out : S → ℕ → ℕ → HandshakeError S
  duplicate_message : S → Message → HandshakeError S

-- The loop over the allowed types.
abbrev pub allows : List ℕ → ℕ → Bool
allows [] ft = false
allows (a ∷ allowed) ft = if a == ft then true else allows allowed ft
