-- ===== src/CloseManager/Machine.antt =====
-- The methods acts events, a run of them, and what holds along every run.
use aafp_go.CloseManager.Truncate.{length-truncate_message-le}
use aafp_go.Base.{
  ℕ, suc, ◌+◌, ◌≤◌, ◌≡◌, ◌≢◌, refl, Bool, true, false, ltb, if◌then◌else◌, Bytes, List, [], ◌∷◌,
  length, Option, none, some, arith, All,
}
use aafp_go.CloseManager.{
  CloseManager, CloseState, open_state, local_close_sent, remote_close_received, close_received,
  closed, CloseAction, no_action, send_close_frame, close_quic, new, initiate_close,
  on_close_received, respond_close, on_fatal_error_received, on_transport_reset, on_timeout, abort,
  check_timer, can_send, max_close_message_len, is_closing,
}

-- A call of a method at a time.
pub data Event : Type 0 where
  initiates receives : ℕ → ℕ → Bytes → Event
  responds : ℕ → Bytes → Event
  fatal_error transport_reset times_out aborts : Event
  checks : ℕ → Event

unfoldable pub step : CloseManager → Event → CloseManager × CloseAction
unfolding initiate_close on_close_received respond_close on_fatal_error_received on_transport_reset
    on_timeout abort check_timer
step cm (initiates now code message) = initiate_close cm now code message
step cm (receives now code message) = on_close_received cm now code message
step cm (responds code message) = respond_close cm code message
step cm fatal_error = on_fatal_error_received cm
step cm transport_reset = on_transport_reset cm
step cm times_out = on_timeout cm
step cm aborts = abort cm
step cm (checks now) = check_timer cm now

unfoldable pub run : CloseManager → List Event → CloseManager
run cm [] = cm
run cm (e ∷ es) = run (step cm e).0 es

unfoldable pub actions : CloseManager → List Event → List CloseAction
actions cm [] = []
actions cm (e ∷ es) = (step cm e).1 ∷ actions (step cm e).0 es

abbrev pub is_some {ℓ} : {A : Type ℓ} → Option A → Bool
is_some none = false
is_some (some a) = true

abbrev pub waits : CloseState → Bool
waits local_close_sent = true
waits remote_close_received = true
waits _ = false

abbrev pub heard : CloseState → Bool
heard remote_close_received = true
heard _ = false

abbrev pub Short : Option Bytes → Type 0
Short none = Unit
Short (some m) = length m ≤ max_close_message_len

-- The timer runs exactly while a CLOSE is awaited or owed, the state is never seen at
-- `close_received`, the peer's code and message come together, and the message is short.
pub record Inv (cm : CloseManager) : Type 0 where
  pub timer : is_some cm.deadline ≡ waits cm.state
  pub no_rest : cm.state ≢ close_received
  pub together : is_some cm.remote_code ≡ is_some cm.remote_message
  pub untouched : cm.state ≡ open_state → cm.remote_code ≡ none
  pub owed : cm.state ≡ remote_close_received → is_some cm.remote_code ≡ true
  pub short : Short cm.remote_message

pub step-Inv : (cm : CloseManager) (e : Event) → Inv cm → Inv (step cm e).0
unfolding step
step-Inv cm (initiates now code message) v = ground arith
step-Inv cm (receives now code message) v = ground (arith, length-truncate_message-le message)
step-Inv cm e v = ground arith

run-Inv_from : (cm : CloseManager) (es : List Event) → Inv cm → Inv (run cm es)
unfolding run
run-Inv_from cm [] v = v
run-Inv_from cm (e ∷ es) v = run-Inv_from (step cm e).0 es (step-Inv cm e v)

-- After any calls on a new manager the invariant holds: the timer runs exactly while a CLOSE is
-- awaited or owed, the state is not `close_received`, the peer's code and message are known together,
-- not while open and always while a CLOSE is owed, and the message has at most 256 bytes.
pub run-Inv : (es : List Event) → Inv (run new es)
unfolding new
run-Inv es = run-Inv_from new es (ground arith)

-- How many CLOSE frames, or closes of the transport, a state still allows.
abbrev send_budget : CloseState → ℕ
send_budget open_state = 1
send_budget remote_close_received = 1
send_budget _ = 0

abbrev quit_budget : CloseState → ℕ
quit_budget closed = 0
quit_budget _ = 1

abbrev pub sends : List CloseAction → ℕ
sends [] = 0
sends (send_close_frame code message ∷ acts) = suc (sends acts)
sends (_ ∷ acts) = sends acts

abbrev pub quits : List CloseAction → ℕ
quits [] = 0
quits (close_quic ∷ acts) = suc (quits acts)
quits (_ ∷ acts) = quits acts

step-send_budget :
    (cm : CloseManager) (e : Event) (acts : List CloseAction) (n : ℕ)
    → sends acts + n ≤ send_budget (step cm e).0.state
    → sends ((step cm e).1 ∷ acts) + n ≤ send_budget cm.state
unfolding step
step-send_budget cm (initiates now code message) acts n h = ground arith
step-send_budget cm e acts n h = ground arith

step-quit_budget :
    (cm : CloseManager) (e : Event) (acts : List CloseAction)
    → quits acts ≤ quit_budget (step cm e).0.state
    → quits ((step cm e).1 ∷ acts) ≤ quit_budget cm.state
unfolding step
step-quit_budget cm (initiates now code message) acts h = ground arith
step-quit_budget cm e acts h = ground arith

run-send_budget :
    (cm : CloseManager) (es : List Event)
    → sends (actions cm es) + send_budget (run cm es).state ≤ send_budget cm.state
unfolding run actions
run-send_budget cm [] = omega arith
run-send_budget cm (e ∷ es) = step-send_budget cm e _ _ (run-send_budget (step cm e).0 es)

run-quit_budget :
    (cm : CloseManager) (es : List Event) → quits (actions cm es) ≤ quit_budget cm.state
unfolding actions
run-quit_budget cm [] = omega arith
run-quit_budget cm (e ∷ es) = step-quit_budget cm e _ (run-quit_budget (step cm e).0 es)

-- Whatever calls are made on a new manager, it asks for one CLOSE frame at most and for one close of
-- the transport at most.
pub once_each : (es : List Event) → (sends (actions new es) ≤ 1) × (quits (actions new es) ≤ 1)
unfolding new
once_each es = (omega (arith, run-send_budget new es), run-quit_budget new es)

spent_can_send :
    (cm : CloseManager) (ft : ℕ) → send_budget cm.state ≡ 0 → can_send cm ft ≡ true → ft ≡ 0x06
unfolding can_send
spent_can_send cm ft z h = ground arith

-- After a CLOSE frame was sent, the only frame that may still be sent is an ERROR.
pub no_data_after_close :
    (es : List Event) (ft : ℕ)
    → 1 ≤ sends (actions new es)
    → can_send (run new es) ft ≡ true
    → ft ≡ 0x06
unfolding new
no_data_after_close es ft sent h =
    spent_can_send (run new es) ft (omega (arith, run-send_budget new es)) h

step_closed :
    (cm : CloseManager) (e : Event)
    → cm.state ≡ closed
    → is_some cm.deadline ≡ false
    → step cm e ≡ (cm, no_action)
unfolding step
step_closed cm (initiates now code message) h t = ground arith
step_closed cm e h t = ground arith

run_closed :
    (cm : CloseManager) (es : List Event)
    → cm.state ≡ closed
    → is_some cm.deadline ≡ false
    → (run cm es ≡ cm) × All (λ a. a ≡ no_action) (actions cm es)
unfolding run actions
run_closed cm [] h t = (refl, tt)
run_closed cm (e ∷ es) h t =
    rw (step_closed cm e h t) (let (a, b) = run_closed cm es h t in (a, (refl, b)))

-- Once closed, always closed: later calls change nothing and ask for nothing.
pub closed_absorbs :
    (before after : List Event)
    → (run new before).state ≡ closed
    → (run (run new before) after ≡ run new before)
      × All (λ a. a ≡ no_action) (actions (run new before) after)
closed_absorbs before after h =
    run_closed (run new before) after h (ground (arith, (run-Inv before).timer))

Closing-check :
    (cm : CloseManager) (now : ℕ)
    → Inv cm
    → is_closing cm.state ≡ true
    → (d : ℕ) × (cm.deadline ≡ some d)
      × (check_timer cm now ≡ (
          if ltb now d
          then (cm, no_action)
          else (record cm { deadline = none; state = closed }, close_quic)))
unfolding check_timer is_closing
Closing-check cm now v h = ground arith

-- After any calls, a manager that is closing has a deadline. A check before it changes nothing, and a
-- check at or after it closes the transport and ends in `closed`.
pub check_timer_fires :
    (es : List Event) (now : ℕ)
    → is_closing (run new es).state ≡ true
    → (d : ℕ) × ((run new es).deadline ≡ some d)
      × (check_timer (run new es) now ≡ (
          if ltb now d
          then (run new es, no_action)
          else (record (run new es) { deadline = none; state = closed }, close_quic)))
check_timer_fires es now h = Closing-check (run new es) now (run-Inv es) h
