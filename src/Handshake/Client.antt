-- ===== src/Handshake/Client.antt =====
-- The client's side of handshake/state_machine.go. A method that changes the machine returns the new
-- record; where it reads the clock, the readings are arguments.
pub mod Diagram
pub mod Trace
pub mod Frames
mod Runs
use aafp_go.Base.{
  ℕ, ◌+◌, ◌-◌, Bool, true, false, ◌&&◌, ◌||◌, not, ltb, ◌==◌, if◌then◌else◌, List, [], ◌∷◌, Option,
  none, some, Result, ok, panic,
}
use aafp_go.Handshake.{
  default_handshake_timeout, default_close_timeout, min_handshake_timeout, min_close_timeout,
  FrameDisposition, frame_accept, frame_reject_with_error, frame_discard_silently, HandshakeError,
  bad_transition, unexpected_frame, timed_out, duplicate_message, allows, server_hello,
}

pub data ClientState : Type 0 where
  idle connecting ch_sent sh_verified cf_sent authorized messaging closing closed : ClientState

unfoldable pub is_terminal : ClientState → Bool
is_terminal closed = true
is_terminal _ = false

unfoldable pub is_handshake_complete : ClientState → Bool
is_handshake_complete cf_sent = true
is_handshake_complete authorized = true
is_handshake_complete messaging = true
is_handshake_complete closing = true
is_handshake_complete _ = false

unfoldable pub is_messaging_active : ClientState → Bool
is_messaging_active messaging = true
is_messaging_active _ = false

unfoldable pub is_identity_verified : ClientState → Bool
is_identity_verified sh_verified = true
is_identity_verified cf_sent = true
is_identity_verified authorized = true
is_identity_verified messaging = true
is_identity_verified closing = true
is_identity_verified _ = false

forward : ClientState → ClientState → Bool
forward idle connecting = true
forward connecting ch_sent = true
forward ch_sent sh_verified = true
forward sh_verified cf_sent = true
forward cf_sent authorized = true
forward authorized messaging = true
forward messaging closing = true
forward closing closed = true
forward _ _ = false

graceful : ClientState → ClientState → Bool
graceful connecting closing = true
graceful ch_sent closing = true
graceful sh_verified closing = true
graceful cf_sent closing = true
graceful authorized closing = true
graceful _ _ = false

aborted : ClientState → ClientState → Bool
aborted idle closed = true
aborted connecting closed = true
aborted ch_sent closed = true
aborted sh_verified closed = true
aborted cf_sent closed = true
aborted authorized closed = true
aborted messaging closed = true
aborted _ _ = false

-- The three `switch` statements, one after the other.
unfoldable pub can_transition_to : ClientState → ClientState → Bool
unfolding forward graceful aborted
can_transition_to s next =
    if forward s next then true else if graceful s next then true else aborted s next

unfoldable pub allowed_frame_types : ClientState → List ℕ
allowed_frame_types ch_sent = 0x02 ∷ 0x06 ∷ []
allowed_frame_types sh_verified = 0x06 ∷ []
allowed_frame_types cf_sent = 0x06 ∷ []
allowed_frame_types authorized = 0x01 ∷ 0x03 ∷ 0x04 ∷ 0x05 ∷ 0x06 ∷ 0x07 ∷ 0x08 ∷ []
allowed_frame_types messaging = 0x01 ∷ 0x03 ∷ 0x04 ∷ 0x05 ∷ 0x06 ∷ 0x07 ∷ 0x08 ∷ []
allowed_frame_types closing = 0x05 ∷ []
allowed_frame_types _ = []

pub record Machine : Type 0 where
  pub state : ClientState
  pub deadline : ℕ
  pub has_deadline : Bool
  pub handshake_timeout : ℕ
  pub close_timeout : ℕ
  pub server_hello_received : Bool

unfoldable pub new : Machine
new = record {
  state = idle;
  deadline = 0;
  has_deadline = false;
  handshake_timeout = default_handshake_timeout;
  close_timeout = default_close_timeout;
  server_hello_received = false;
}

unfoldable pub with_handshake_timeout : Machine → ℕ → Result (HandshakeError ClientState) Machine
with_handshake_timeout m d =
    if ltb d min_handshake_timeout then panic else ok (record m { handshake_timeout = d })

unfoldable pub with_close_timeout : Machine → ℕ → Result (HandshakeError ClientState) Machine
with_close_timeout m d =
    if ltb d min_close_timeout then panic else ok (record m { close_timeout = d })

-- The deadline that entering `next` sets.
arm : ClientState → ℕ → Machine → Machine
arm connecting now m = record m { deadline = now + m.handshake_timeout; has_deadline = true }
arm ch_sent now m = record m { deadline = now + m.handshake_timeout; has_deadline = true }
arm closing now m = record m { deadline = now + m.close_timeout; has_deadline = true }
arm closed now m = record m { has_deadline = false }
arm _ now m = m

forget : ClientState → Machine → Machine
forget ch_sent m = record m { server_hello_received = false }
forget _ m = m

unfoldable pub transition_to :
    Machine → ℕ → ClientState → Machine × Option (HandshakeError ClientState)
unfolding can_transition_to arm forget
transition_to m now next =
    if not (can_transition_to m.state next)
    then (m, some (bad_transition m.state next))
    else (record (forget next (arm next now m)) { state = next }, none)

abbrev limit_of : ClientState → Machine → ℕ
limit_of closing m = m.close_timeout
limit_of _ m = m.handshake_timeout

-- `later` is the reading of the clock by `time.Since`.
unfoldable pub check_timeout : Machine → ℕ → ℕ → Option (HandshakeError ClientState)
check_timeout m now later =
    let limit = limit_of m.state m in
    if not m.has_deadline
    then none
    else if ltb m.deadline now
    then some (timed_out m.state (later + limit - m.deadline) limit)
    else none

unfoldable pub check_frame_type : Machine → ℕ → Option (HandshakeError ClientState)
unfolding allowed_frame_types
check_frame_type m ft =
    let allowed = allowed_frame_types m.state in
    if allows allowed ft then none else some (unexpected_frame m.state ft allowed)

disposition_in : ClientState → ℕ → FrameDisposition
unfolding allowed_frame_types
disposition_in closing ft = if ft == 0x05 then frame_accept else frame_discard_silently
disposition_in closed ft = frame_discard_silently
disposition_in s ft =
    if allows (allowed_frame_types s) ft then frame_accept else frame_reject_with_error

unfoldable pub frame_disposition : Machine → ℕ → FrameDisposition
unfolding disposition_in
frame_disposition m ft = disposition_in m.state ft

unfoldable pub on_server_hello_received : Machine → Machine × Option (HandshakeError ClientState)
on_server_hello_received m =
    if m.server_hello_received
    then (m, some (duplicate_message m.state server_hello))
    else (record m { server_hello_received = true }, none)

unfoldable pub abort : Machine → ℕ → Machine × Option (HandshakeError ClientState)
unfolding transition_to
abort m now = transition_to m now closed
