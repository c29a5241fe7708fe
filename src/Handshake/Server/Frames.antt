-- ===== src/Handshake/Server/Frames.antt =====
-- Which frames the server's machine takes.
use aafp_go.Handshake.{frame_accept}
use aafp_go.Base.{ℕ, ◌≡◌, ◌⊎◌, ◌↔◌, none, arith}
use aafp_go.Handshake.Server.{Machine, messaging, check_frame_type, frame_disposition}

-- `FrameDisposition` accepts the frame types for which `CheckFrameType` has no error, in each state.
pub server_accept_iff :
    (m : Machine) (ft : ℕ)
    → (frame_disposition m ft ≡ frame_accept) ↔ (check_frame_type m ft ≡ none)
unfolding frame_disposition check_frame_type
server_accept_iff m ft = (λ h. ground arith, λ h. ground arith)

-- A DATA or RPC frame is accepted only when the server exchanges messages.
pub data_needs_messaging :
    (m : Machine) (ft : ℕ)
    → (ft ≡ 0x01) ⊎ (ft ≡ 0x03) ⊎ (ft ≡ 0x04)
    → frame_disposition m ft ≡ frame_accept
    → m.state ≡ messaging
unfolding frame_disposition
data_needs_messaging m ft h k = ground arith
