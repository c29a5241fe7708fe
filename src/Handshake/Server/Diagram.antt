-- ===== src/Handshake/Server/Diagram.antt =====
-- The server's transitions as a relation.
use aafp_go.Base.{ℕ, ◌≡◌, refl, true, arith, ◌↔◌}
use aafp_go.Handshake.Server.{
  ServerState, listening, transport_ready, ch_verified, sh_sent, cf_verified, authorized, messaging,
  closing, closed, can_transition_to,
}

-- A state in which the handshake is under way.
pub data Underway : ServerState → Type 0 where
  at_transport_ready : Underway transport_ready
  at_ch_verified : Underway ch_verified
  at_sh_sent : Underway sh_sent
  at_cf_verified : Underway cf_verified
  at_authorized : Underway authorized

infix 40 ◌⟶◌
pub data ◌⟶◌ : ServerState → ServerState → Type 0 where
  accept_transport : listening ⟶ transport_ready
  verify_client_hello : transport_ready ⟶ ch_verified
  send_server_hello : ch_verified ⟶ sh_sent
  verify_finished : sh_sent ⟶ cf_verified
  authorize : cf_verified ⟶ authorized
  start : authorized ⟶ messaging
  close : messaging ⟶ closing
  close_early : {s : ServerState} → Underway s → s ⟶ closing
  finish : closing ⟶ closed
  give_up : listening ⟶ closed
  give_up_early : {s : ServerState} → Underway s → s ⟶ closed
  give_up_late : messaging ⟶ closed

ruleset underway = (at_transport_ready, at_ch_verified, at_sh_sent, at_cf_verified, at_authorized)

ruleset edges = (
  accept_transport, verify_client_hello, send_server_hello, verify_finished, authorize, start,
  close, finish, give_up, give_up_late,
)

can_transition_to-⟶ : (s t : ServerState) → can_transition_to s t ≡ true → s ⟶ t
unfolding can_transition_to
can_transition_to-⟶ s t h = grind (arith, edges, underway, close_early, give_up_early)

⟶-can_transition_to : {s t : ServerState} → s ⟶ t → can_transition_to s t ≡ true
unfolding can_transition_to
⟶-can_transition_to accept_transport = refl
⟶-can_transition_to verify_client_hello = refl
⟶-can_transition_to send_server_hello = refl
⟶-can_transition_to verify_finished = refl
⟶-can_transition_to authorize = refl
⟶-can_transition_to start = refl
⟶-can_transition_to close = refl
⟶-can_transition_to (close_early at_transport_ready) = refl
⟶-can_transition_to (close_early at_ch_verified) = refl
⟶-can_transition_to (close_early at_sh_sent) = refl
⟶-can_transition_to (close_early at_cf_verified) = refl
⟶-can_transition_to (close_early at_authorized) = refl
⟶-can_transition_to finish = refl
⟶-can_transition_to give_up = refl
⟶-can_transition_to (give_up_early at_transport_ready) = refl
⟶-can_transition_to (give_up_early at_ch_verified) = refl
⟶-can_transition_to (give_up_early at_sh_sent) = refl
⟶-can_transition_to (give_up_early at_cf_verified) = refl
⟶-can_transition_to (give_up_early at_authorized) = refl
⟶-can_transition_to give_up_late = refl

-- `CanTransitionTo` is true of just the pairs of states that the server's diagram joins.
pub server_can_transition_to_iff : (s t : ServerState) → (can_transition_to s t ≡ true) ↔ (s ⟶ t)
server_can_transition_to_iff s t = (can_transition_to-⟶ s t, ⟶-can_transition_to)

-- How far a state is from the start.
abbrev pub rank : ServerState → ℕ
rank listening = 0
rank transport_ready = 1
rank ch_verified = 2
rank sh_sent = 3
rank cf_verified = 4
rank authorized = 5
rank messaging = 6
rank closing = 7
rank closed = 8
