-- ===== src/CloseManager/Queries.antt =====
-- The `String` methods and the accessors of closemanager/closemanager.go. The value of an int type
-- outside its constants does not arise, so the default branches have no clause.
use aafp_go.Base.{ℕ, Bool, true, false, Bytes, [], Option, none, some}
use aafp_go.Base.Ascii.{ascii}
use aafp_go.CloseManager.{
  CloseState, open_state, local_close_sent, remote_close_received, close_received, closed,
  CloseFrameDisposition, accept, discard_silently, CloseManager, is_terminal, is_closing,
}

unfoldable pub state_string : CloseState → Bytes
state_string open_state = ascii "Open"
state_string local_close_sent = ascii "LocalCloseSent"
state_string remote_close_received = ascii "RemoteCloseReceived"
state_string close_received = ascii "CloseReceived"
state_string closed = ascii "Closed"

unfoldable pub disposition_string : CloseFrameDisposition → Bytes
disposition_string accept = ascii "Accept"
disposition_string discard_silently = ascii "DiscardSilently"

-- The zero value and false stand for a pointer that is nil.
abbrev value_or {ℓ} : {A : Type ℓ} → A → Option A → A × Bool
value_or unset none = (unset, false)
value_or unset (some x) = (x, true)

unfoldable pub is_closed : CloseManager → Bool
unfolding is_terminal
is_closed cm = is_terminal cm.state

unfoldable pub manager_is_closing : CloseManager → Bool
unfolding is_closing
manager_is_closing cm = is_closing cm.state

unfoldable pub remote_code : CloseManager → ℕ × Bool
remote_code cm = value_or 0 cm.remote_code

unfoldable pub remote_message : CloseManager → Bytes × Bool
remote_message cm = value_or [] cm.remote_message

-- The zero time is not a number of nanoseconds here: it is an argument.
unfoldable pub deadline : ℕ → CloseManager → ℕ × Bool
deadline zero_time cm = value_or zero_time cm.deadline
