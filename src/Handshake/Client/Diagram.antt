-- ===== src/Handshake/Client/Diagram.antt =====
-- The client's transitions as a relation.
use aafp_go.Base.{ℕ, ◌≡◌, refl, true, arith, ◌↔◌}
use aafp_go.Handshake.Client.{
  ClientState, idle, connecting, ch_sent, sh_verified, cf_sent, authorized, messaging, closing,
  closed, can_transition_to,
}

-- A state in which the handshake is under way.
pub data Underway : ClientState → Type 0 where
  at_connecting : Underway connecting
  at_ch_sent : Underway ch_sent
  at_sh_verified : Underway sh_verified
  at_cf_sent : Underway cf_sent
  at_authorized : Underway authorized

infix 40 ◌⟶◌
pub data ◌⟶◌ : ClientState → ClientState → Type 0 where
  connect : idle ⟶ connecting
  send_hello : connecting ⟶ ch_sent
  verify_hello : ch_sent ⟶ sh_verified
  send_finished : sh_verified ⟶ cf_sent
  authorize : cf_sent ⟶ authorized
  start : authorized ⟶ messaging
  close : messaging ⟶ closing
  close_early : {s : ClientState} → Underway s → s ⟶ closing
  finish : closing ⟶ closed
  give_up : idle ⟶ closed
  give_up_early : {s : ClientState} → Underway s → s ⟶ closed
  give_up_late : messaging ⟶ closed

ruleset underway = (at_connecting, at_ch_sent, at_sh_verified, at_cf_sent, at_authorized)

ruleset edges = (
  connect, send_hello, verify_hello, send_finished, authorize, start, close, finish, give_up,
  give_up_late,
)

can_transition_to-⟶ : (s t : ClientState) → can_transition_to s t ≡ true → s ⟶ t
unfolding can_transition_to
can_transition_to-⟶ s t h = grind (arith, edges, underway, close_early, give_up_early)

⟶-can_transition_to : {s t : ClientState} → s ⟶ t → can_transition_to s t ≡ true
unfolding can_transition_to
⟶-can_transition_to connect = refl
⟶-can_transition_to send_hello = refl
⟶-can_transition_to verify_hello = refl
⟶-can_transition_to send_finished = refl
⟶-can_transition_to authorize = refl
⟶-can_transition_to start = refl
⟶-can_transition_to close = refl
⟶-can_transition_to (close_early at_connecting) = refl
⟶-can_transition_to (close_early at_ch_sent) = refl
⟶-can_transition_to (close_early at_sh_verified) = refl
⟶-can_transition_to (close_early at_cf_sent) = refl
⟶-can_transition_to (close_early at_authorized) = refl
⟶-can_transition_to finish = refl
⟶-can_transition_to give_up = refl
⟶-can_transition_to (give_up_early at_connecting) = refl
⟶-can_transition_to (give_up_early at_ch_sent) = refl
⟶-can_transition_to (give_up_early at_sh_verified) = refl
⟶-can_transition_to (give_up_early at_cf_sent) = refl
⟶-can_transition_to (give_up_early at_authorized) = refl
⟶-can_transition_to give_up_late = refl

-- `CanTransitionTo` is true of just the pairs of states that the client's diagram joins.
pub can_transition_to_iff : (s t : ClientState) → (can_transition_to s t ≡ true) ↔ (s ⟶ t)
can_transition_to_iff s t = (can_transition_to-⟶ s t, ⟶-can_transition_to)

-- How far a state is from the start.
abbrev pub rank : ClientState → ℕ
rank idle = 0
rank connecting = 1
rank ch_sent = 2
rank sh_verified = 3
rank cf_sent = 4
rank authorized = 5
rank messaging = 6
rank closing = 7
rank closed = 8
