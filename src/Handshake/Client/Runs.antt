-- ===== src/Handshake/Client/Runs.antt =====
-- The client's machine of handshake/state_machine.go on a concrete run.
use aafp_go.Base.{◌+◌, ◌≡◌, ◌≤◌, ◌↔◌, refl, List, [], ◌∷◌, length, none}
use aafp_go.Handshake.{frame_accept}
use aafp_go.Handshake.Client.{
  Machine, new, connecting, ch_sent, sh_verified, cf_sent, authorized, messaging, transition_to,
  on_server_hello_received, check_frame_type, frame_disposition,
}
use aafp_go.Handshake.Client.Trace.{
  Event, moves, hears_server_hello, step, run, visited, visited-bound, visited-way_to,
}
use aafp_go.Handshake.Client.Frames.{accept_iff}

-- A handshake that is done 6 nanoseconds after its start.
abbrev handshake : List Event
handshake =
    moves 1 connecting
    ∷ moves 2 ch_sent
    ∷ hears_server_hello
    ∷ moves 3 sh_verified
    ∷ moves 4 cf_sent
    ∷ moves 5 authorized
    ∷ moves 6 messaging
    ∷ []

abbrev done : Machine
done = run new handshake

handshake_messaging : done.state ≡ messaging
unfolding new run step transition_to on_server_hello_received
handshake_messaging = refl

handshake_late : done.deadline + 1 ≡ 30_000_000_003
unfolding new run step transition_to on_server_hello_received
handshake_late = refl

visited-bound_example : length (visited new handshake) ≤ 8
visited-bound_example = visited-bound handshake

visited-way_to_example :
    visited new handshake
    ≡ connecting ∷ ch_sent ∷ sh_verified ∷ cf_sent ∷ authorized ∷ messaging ∷ []
unfolding new run step transition_to on_server_hello_received
visited-way_to_example = visited-way_to handshake (λ h. cc) (λ h. cc)

abbrev waiting : Machine
waiting = record new { state = ch_sent }

accept_iff_example :
    (frame_disposition waiting 2 ≡ frame_accept) ↔ (check_frame_type waiting 2 ≡ none)
accept_iff_example = accept_iff waiting 2

abbrev talking : Machine
talking = record new { state = messaging }

talking_accepts : frame_disposition talking 1 ≡ frame_accept
unfolding frame_disposition
talking_accepts = refl
