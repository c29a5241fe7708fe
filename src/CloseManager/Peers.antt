-- ===== src/CloseManager/Peers.antt =====
-- Two managers at the ends of one connection, each CLOSE that one sends being received by the other.
use aafp_go.Base.{ℕ, ◌≡◌, Bytes, some, arith}
use aafp_go.CloseManager.{
  CloseManager, open_state, closed, send_close_frame, close_quic, initiate_close, on_close_received,
  respond_close, truncate_message,
}
use aafp_go.CloseManager.Truncate.{length-truncate_message-le, truncate_message-short}

truncate_message_twice : (m : Bytes) → truncate_message (truncate_message m) ≡ truncate_message m
truncate_message_twice m =
    truncate_message-short (truncate_message m) (length-truncate_message-le m)

module _ (a b : CloseManager) (code reply t u v : ℕ) (m n : Bytes) where
  -- The first end closes, the other is told and answers, and the answer arrives.
  abbrev asked : CloseManager
  asked = (initiate_close a t code m).0

  abbrev told : CloseManager
  told = (on_close_received b u code (truncate_message m)).0

  abbrev answered : CloseManager
  answered = (respond_close told reply n).0

  abbrev finished : CloseManager
  finished = (on_close_received asked v reply (truncate_message n)).0

  -- Between two open ends a close runs to its end: one CLOSE goes each way, both ends are closed, the
  -- one that asked closes the transport, and each knows the other's code and message.
  pub graceful_close :
      a.state ≡ open_state
      → b.state ≡ open_state
      → ((initiate_close a t code m).1 ≡ send_close_frame code (truncate_message m))
        × ((respond_close told reply n).1 ≡ send_close_frame reply (truncate_message n))
        × ((on_close_received asked v reply (truncate_message n)).1 ≡ close_quic)
        × (answered.state ≡ closed)
        × (finished.state ≡ closed)
        × (answered.remote_code ≡ some code)
        × (answered.remote_message ≡ some (truncate_message m))
        × (finished.remote_code ≡ some reply)
        × (finished.remote_message ≡ some (truncate_message n))
  unfolding initiate_close on_close_received respond_close
  graceful_close p q = ground (arith, truncate_message_twice m, truncate_message_twice n)

  -- Where both ends close at once and the frames cross, both end closed and close the transport.
  pub crossed_close :
      a.state ≡ open_state
      → b.state ≡ open_state
      → ((on_close_received asked v reply (truncate_message n)).1 ≡ close_quic)
        × (finished.state ≡ closed)
        × ((on_close_received (initiate_close b u reply n).0 v code (truncate_message m)).1
            ≡ close_quic)
        × ((on_close_received (initiate_close b u reply n).0 v code (truncate_message m)).0.state
            ≡ closed)
  unfolding initiate_close on_close_received
  crossed_close p q = ground arith
