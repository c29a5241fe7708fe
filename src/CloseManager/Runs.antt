-- ===== src/CloseManager/Runs.antt =====
-- closemanager/closemanager.go: a close at concrete times and messages.
use aafp_go.Base.{
  ℕ, ◌≡◌, ◌≤◌, refl, true, Bytes, List, [], ◌∷◌, ltb, if◌then◌else◌, none, some, arith,
}
use aafp_go.CloseManager
use aafp_go.Frame
use aafp_go.CloseManager.{
  CloseManager, CloseAction, no_action, send_close_frame, close_quic, truncate_message,
  initiate_close, on_close_received, respond_close, can_send, check_timer, open_state, closed,
  is_closing, new, max_close_message_len,
}
use aafp_go.CloseManager.Machine.{
  initiates, receives, run, actions, Inv, run-Inv, sends, quits, once_each, no_data_after_close,
  step, check_timer_fires, Event,
}
use aafp_go.CloseManager.Peers.{graceful_close}

abbrev bye : Bytes
bye = 98 ∷ 121 ∷ 101 ∷ []

-- This end closes, and the peer answers.
abbrev closing_run : List Event
closing_run = initiates 10 1 bye ∷ receives 20 0 bye ∷ []

abbrev asking : List Event
asking = initiates 10 1 bye ∷ []

run-Inv_example : Inv (run CloseManager.new closing_run)
run-Inv_example = run-Inv closing_run

once_each_example :
    (sends (actions CloseManager.new closing_run) ≤ 1)
    × (quits (actions CloseManager.new closing_run) ≤ 1)
once_each_example = once_each closing_run

asking_sent : 1 ≤ sends (actions CloseManager.new asking)
unfolding CloseManager.new actions step initiate_close
asking_sent = ground arith

asking_errors : can_send (run CloseManager.new asking) Frame.type_error ≡ true
unfolding CloseManager.new run step initiate_close can_send
asking_errors = refl

asking_closes : is_closing (run CloseManager.new asking).state ≡ true
unfolding CloseManager.new run step initiate_close is_closing
asking_closes = refl

closing_run_closed : (run CloseManager.new closing_run).state ≡ closed
unfolding CloseManager.new run step initiate_close on_close_received
closing_run_closed = refl

no_data_after_close_example : Frame.type_error ≡ 0x06
no_data_after_close_example = no_data_after_close asking Frame.type_error asking_sent asking_errors

check_timer_fires_example :
    (d : ℕ) × ((run CloseManager.new asking).deadline ≡ some d)
    × (check_timer (run CloseManager.new asking) 30 ≡ (
        if ltb 30 d then (run CloseManager.new asking, no_action) else (
          record (run CloseManager.new asking) { deadline = none; state = closed },
          close_quic,
        )))
check_timer_fires_example = check_timer_fires asking 30 asking_closes

-- The other end, once told of the close.
abbrev peer : CloseManager
peer = (on_close_received CloseManager.new 15 1 (truncate_message bye)).0

-- This end, once it has asked.
abbrev this : CloseManager
this = (initiate_close CloseManager.new 10 1 bye).0

new_open : CloseManager.new.state ≡ open_state
unfolding CloseManager.new
new_open = refl

graceful_close_example :
    ((initiate_close CloseManager.new 10 1 bye).1 ≡ send_close_frame 1 (truncate_message bye))
    × ((respond_close peer 0 []).1 ≡ send_close_frame 0 (truncate_message []))
    × ((on_close_received this 20 0 (truncate_message [])).1 ≡ close_quic)
    × ((respond_close peer 0 []).0.state ≡ closed)
    × ((on_close_received this 20 0 (truncate_message [])).0.state ≡ closed)
    × ((respond_close peer 0 []).0.remote_code ≡ some 1)
    × ((respond_close peer 0 []).0.remote_message ≡ some (truncate_message bye))
    × ((on_close_received this 20 0 (truncate_message [])).0.remote_code ≡ some 0)
    × ((on_close_received this 20 0 (truncate_message [])).0.remote_message
        ≡ some (truncate_message []))
graceful_close_example =
    graceful_close CloseManager.new CloseManager.new 1 0 10 15 20 bye [] new_open new_open
