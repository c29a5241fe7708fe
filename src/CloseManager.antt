-- ===== src/CloseManager.antt =====
-- closemanager/closemanager.go: the life of a CLOSE on a connection.
-- A method that changes `*CloseManager` returns the new record, and takes the time of its call where
-- the code calls `time.Now`. Times and durations are nanoseconds.
pub mod Truncate
pub mod Machine
pub mod Peers
pub mod Queries
mod Runs
use aafp_go.Base.{
  ℕ, zero, suc, ◌+◌, ◌-◌, Bool, true, false, not, ◌||◌, ltb, leb, ◌==◌, if◌then◌else◌, Bytes, List,
  [], ◌∷◌, ◌++◌, length, take, get_or, Option, none, some, Result, ok, err,
}
use aafp_go.Base.Utf8.{valid_string, runes, rune_start, rune_len, encode_rune}

abbrev pub default_close_timeout : ℕ
default_close_timeout = 5_000_000_000

abbrev pub min_close_timeout : ℕ
min_close_timeout = 1_000_000_000

abbrev pub max_close_message_len : ℕ
max_close_message_len = 256

pub data CloseState : Type 0 where
  open_state local_close_sent remote_close_received close_received closed : CloseState

unfoldable pub is_terminal : CloseState → Bool
is_terminal closed = true
is_terminal _ = false

unfoldable pub is_closing : CloseState → Bool
is_closing local_close_sent = true
is_closing remote_close_received = true
is_closing close_received = true
is_closing _ = false

pub data CloseAction : Type 0 where
  no_action : CloseAction
  send_close_frame : ℕ → Bytes → CloseAction
  close_quic : CloseAction

pub data CloseFrameDisposition : Type 0 where
  accept discard_silently : CloseFrameDisposition

pub record CloseManager : Type 0 where
  pub state : CloseState
  pub remote_code : Option ℕ
  pub remote_message : Option Bytes
  pub close_timeout : ℕ
  pub deadline : Option ℕ

-- The first `end` bytes, with `end` moved down to a rune boundary.
back_up : ℕ → Bytes → ℕ
back_up zero s = 0
back_up (suc end) s =
    let before = back_up end s in if rune_start (get_or 0 s (suc end)) then suc end else before

-- The loop over the runes, with the bytes kept so far and their number.
collect : List (ℕ × ℕ) → ℕ → Bytes → Bytes
collect [] total result = result
collect ((r, w) ∷ rs) total result =
    let rest = collect rs (total + rune_len r) (result ++ encode_rune r) in
    if ltb max_close_message_len (total + rune_len r) then result else rest

unfoldable pub truncate_message : Bytes → Bytes
unfolding back_up collect
truncate_message s =
    let truncated = take (back_up max_close_message_len s) s in
    if leb (length s) max_close_message_len
    then s
    else if not (valid_string truncated)
    then collect (runes s) 0 []
    else truncated

unfoldable pub new : CloseManager
new = record {
  state = open_state;
  remote_code = none;
  remote_message = none;
  close_timeout = default_close_timeout;
  deadline = none;
}

pub data CloseError : Type 0 where
  timeout_too_short : CloseError

unfoldable pub new_with_timeout : ℕ → Result CloseError CloseManager
unfolding new
new_with_timeout close_timeout =
    if ltb close_timeout min_close_timeout
    then err timeout_too_short
    else ok (record new { close_timeout = close_timeout })

unfoldable pub timer_active : CloseManager → Bool
timer_active cm = elim cm.deadline [ none ↦ false | some d ↦ true ]

can_send_in : CloseState → ℕ → Bool
can_send_in open_state ft = true
can_send_in local_close_sent ft = ft == 0x06
can_send_in remote_close_received ft = ft == 0x05 || ft == 0x06
can_send_in close_received ft = false
can_send_in closed ft = false

unfoldable pub can_send : CloseManager → ℕ → Bool
unfolding can_send_in
can_send cm ft = can_send_in cm.state ft

disposition_in : CloseState → ℕ → CloseFrameDisposition
disposition_in open_state ft = accept
disposition_in local_close_sent ft = if ft == 0x05 then accept else discard_silently
disposition_in remote_close_received ft = discard_silently
disposition_in close_received ft = discard_silently
disposition_in closed ft = discard_silently

unfoldable pub frame_disposition : CloseManager → ℕ → CloseFrameDisposition
unfolding disposition_in
frame_disposition cm ft = disposition_in cm.state ft

initiate_close_in : CloseState → CloseManager → ℕ → ℕ → Bytes → CloseManager × CloseAction
initiate_close_in open_state cm now code message = (
  record cm { state = local_close_sent; deadline = some (now + cm.close_timeout) },
  send_close_frame code (truncate_message message),
)
initiate_close_in _ cm now code message = (cm, no_action)

unfoldable pub initiate_close : CloseManager → ℕ → ℕ → Bytes → CloseManager × CloseAction
unfolding initiate_close_in
initiate_close cm now code message = initiate_close_in cm.state cm now code message

-- In the second case the state passes through `close_received` before it is `closed`.
on_close_received_in : CloseState → CloseManager → ℕ → ℕ → Bytes → CloseManager × CloseAction
on_close_received_in open_state cm now code message = (
  record cm {
    remote_code = some code;
    remote_message = some (truncate_message message);
    state = remote_close_received;
    deadline = some (now + cm.close_timeout);
  },
  no_action,
)
on_close_received_in local_close_sent cm now code message = (
  record cm {
    remote_code = some code;
    remote_message = some (truncate_message message);
    deadline = none;
    state = closed;
  },
  close_quic,
)
on_close_received_in _ cm now code message = (cm, no_action)

unfoldable pub on_close_received : CloseManager → ℕ → ℕ → Bytes → CloseManager × CloseAction
unfolding on_close_received_in
on_close_received cm now code message = on_close_received_in cm.state cm now code message

respond_close_in : CloseState → CloseManager → ℕ → Bytes → CloseManager × CloseAction
respond_close_in remote_close_received cm code message = (
  record cm { deadline = none; state = closed },
  send_close_frame code (truncate_message message),
)
respond_close_in _ cm code message = (cm, no_action)

unfoldable pub respond_close : CloseManager → ℕ → Bytes → CloseManager × CloseAction
unfolding respond_close_in
respond_close cm code message = respond_close_in cm.state cm code message

-- The common body of `OnFatalErrorReceived`, `OnTransportReset` and `Abort`.
shut_in : CloseState → CloseManager → CloseManager × CloseAction
shut_in closed cm = (cm, no_action)
shut_in _ cm = (record cm { deadline = none; state = closed }, close_quic)

unfoldable pub on_fatal_error_received : CloseManager → CloseManager × CloseAction
unfolding shut_in
on_fatal_error_received cm = shut_in cm.state cm

unfoldable pub on_transport_reset : CloseManager → CloseManager × CloseAction
unfolding shut_in
on_transport_reset cm = shut_in cm.state cm

unfoldable pub abort : CloseManager → CloseManager × CloseAction
unfolding shut_in
abort cm = shut_in cm.state cm

on_timeout_in : CloseState → CloseManager → CloseManager × CloseAction
on_timeout_in local_close_sent cm = (record cm { deadline = none; state = closed }, close_quic)
on_timeout_in remote_close_received cm = (record cm { deadline = none; state = closed }, close_quic)
on_timeout_in _ cm = (cm, no_action)

unfoldable pub on_timeout : CloseManager → CloseManager × CloseAction
unfolding on_timeout_in
on_timeout cm = on_timeout_in cm.state cm

unfoldable pub check_timer : CloseManager → ℕ → CloseManager × CloseAction
unfolding on_timeout
check_timer cm now = elim cm.deadline [
  | none ↦ (cm, no_action)
  | some d ↦ if not (ltb now d) then on_timeout cm else (cm, no_action)
]
