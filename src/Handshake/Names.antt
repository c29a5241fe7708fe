-- ===== src/Handshake/Names.antt =====
-- The `String` and `Error` methods of handshake/state_machine.go. The value of an int type outside
-- its constants does not arise, so the default branches have no clause.
use aafp_go.Base.{◌≡◌, refl, Bytes, [], ◌∷◌, ◌++◌, Option, none, some}
use aafp_go.Base.Ascii.{ascii}
use aafp_go.Handshake.{
  FrameDisposition, frame_accept, frame_reject_with_error, frame_discard_silently, Message,
  client_hello, server_hello, client_finished, HandshakeError, bad_transition, duplicate_message,
}
use aafp_go.Handshake.Client as Client
use aafp_go.Handshake.Server as Server

pub data HandshakeRole : Type 0 where
  role_client role_server : HandshakeRole

unfoldable pub role_string : HandshakeRole → Bytes
role_string role_client = ascii "client"
role_string role_server = ascii "server"

unfoldable pub disposition_string : FrameDisposition → Bytes
disposition_string frame_accept = ascii "Accept"
disposition_string frame_reject_with_error = ascii "RejectWithError"
disposition_string frame_discard_silently = ascii "DiscardSilently"

unfoldable pub client_state_string : Client.ClientState → Bytes
client_state_string Client.idle = ascii "C_IDLE"
client_state_string Client.connecting = ascii "C_CONNECTING"
client_state_string Client.ch_sent = ascii "C_CH_SENT"
client_state_string Client.sh_verified = ascii "C_SH_VERIFIED"
client_state_string Client.cf_sent = ascii "C_CF_SENT"
client_state_string Client.authorized = ascii "C_AUTHORIZED"
client_state_string Client.messaging = ascii "C_MESSAGING"
client_state_string Client.closing = ascii "C_CLOSING"
client_state_string Client.closed = ascii "C_CLOSED"

unfoldable pub server_state_string : Server.ServerState → Bytes
server_state_string Server.listening = ascii "S_LISTENING"
server_state_string Server.transport_ready = ascii "S_TRANSPORT_READY"
server_state_string Server.ch_verified = ascii "S_CH_VERIFIED"
server_state_string Server.sh_sent = ascii "S_SH_SENT"
server_state_string Server.cf_verified = ascii "S_CF_VERIFIED"
server_state_string Server.authorized = ascii "S_AUTHORIZED"
server_state_string Server.messaging = ascii "S_MESSAGING"
server_state_string Server.closing = ascii "S_CLOSING"
server_state_string Server.closed = ascii "S_CLOSED"

unfoldable pub message_string : Message → Bytes
message_string client_hello = ascii "ClientHello"
message_string server_hello = ascii "ServerHello"
message_string client_finished = ascii "ClientFinished"

-- " → " in UTF-8.
abbrev arrow : Bytes
arrow = 32 ∷ 226 ∷ 134 ∷ 146 ∷ 32 ∷ []

unfoldable pub transition_error : HandshakeRole → Bytes → Bytes → Bytes → Bytes
unfolding role_string
transition_error role from to reason =
    ascii "illegal "
    ++ role_string role
    ++ ascii " handshake transition: "
    ++ from
    ++ arrow
    ++ to
    ++ ascii " ("
    ++ reason
    ++ ascii ")"

unfoldable pub duplicate_error : Message → Bytes → Bytes
unfolding message_string
duplicate_error message state =
    ascii "duplicate " ++ message_string message ++ ascii " received in state " ++ state

-- The texts of the errors that the machines return: `TransitionTo`, and the three methods that note
-- a message. The texts that print a frame type or a duration are left out.
unfoldable pub error_text :
    {S : Type 0} → HandshakeRole → (S → Bytes) → HandshakeError S → Option Bytes
unfolding transition_error duplicate_error
error_text role state_string (bad_transition from to) =
    some
      (transition_error role (state_string from) (state_string to) (ascii "transition not allowed"))
error_text role state_string (duplicate_message state message) =
    some (duplicate_error message (state_string state))
error_text role state_string _ = none

-- A refused transition of the client is reported with both states, by their names.
client_refusal :
    error_text role_client client_state_string (bad_transition Client.idle Client.closed)
    ≡ some (
        ascii "illegal client handshake transition: C_IDLE"
        ++ (arrow ++ ascii "C_CLOSED (transition not allowed)"))
unfolding error_text client_state_string role_string transition_error
client_refusal = refl

server_refusal :
    error_text role_server server_state_string (duplicate_message Server.sh_sent client_hello)
    ≡ some (ascii "duplicate ClientHello received in state S_SH_SENT")
unfolding error_text server_state_string duplicate_error message_string
server_refusal = refl
