-- ===== src/Handshake/Server/Runs.antt =====
-- The server's machine of handshake/state_machine.go on a concrete run.
use aafp_go.Base.{◌+◌, ◌≡◌, ◌≤◌, ◌↔◌, refl, List, [], ◌∷◌, length, none}
use aafp_go.Handshake.{frame_accept}
use aafp_go.Handshake.Server.{
  Machine, new, transport_ready, ch_verified, sh_sent, cf_verified, authorized, messaging,
  transition_to, on_client_hello_received, on_client_finished_received, check_frame_type,
  frame_disposition,
}
use aafp_go.Handshake.Server.Trace.{
  Event, moves, hears_client_hello, hears_client_finished, step, run, visited, server_visited-bound,
  server_visited-way_to,
}
use aafp_go.Handshake.Server.Frames.{server_accept_iff}

-- A handshake that is done 6 nanoseconds after its start.
abbrev handshake : List Event
handshake =
    moves 1 transport_ready
    ∷ hears_client_hello
    ∷ moves 2 ch_verified
    ∷ moves 3 sh_sent
    ∷ hears_client_finished
    ∷ moves 4 cf_verified
    ∷ moves 5 authorized
    ∷ moves 6 messaging
    ∷ []

abbrev done : Machine
done = run new handshake

handshake_messaging : done.state ≡ messaging
unfolding new run step transition_to on_client_hello_received on_client_finished_received
handshake_messaging = refl

handshake_late : done.deadline + 1 ≡ 30_000_000_004
unfolding new run step transition_to on_client_hello_received on_client_finished_received
handshake_late = refl

server_visited-bound_example : length (visited new handshake) ≤ 8
server_visited-bound_example = server_visited-bound handshake

server_visited-way_to_example :
    visited new handshake
    ≡ transport_ready ∷ ch_verified ∷ sh_sent ∷ cf_verified ∷ authorized ∷ messaging ∷ []
unfolding new run step transition_to on_client_hello_received on_client_finished_received
server_visited-way_to_example = server_visited-way_to handshake (λ h. cc) (λ h. cc)

abbrev waiting : Machine
waiting = record new { state = transport_ready }

server_accept_iff_example :
    (frame_disposition waiting 2 ≡ frame_accept) ↔ (check_frame_type waiting 2 ≡ none)
server_accept_iff_example = server_accept_iff waiting 2

abbrev talking : Machine
talking = record new { state = messaging }

talking_accepts : frame_disposition talking 1 ≡ frame_accept
unfolding frame_disposition
talking_accepts = refl
