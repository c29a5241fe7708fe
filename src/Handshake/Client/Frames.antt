-- ===== src/Handshake/Client/Frames.antt =====
-- Which frames the client's machine takes.
use aafp_go.Handshake.{frame_accept}
use aafp_go.Base.{ℕ, ◌≡◌, ◌⊎◌, ◌↔◌, none, arith}
use aafp_go.Handshake.Client.{Machine, authorized, messaging, check_frame_type, frame_disposition}

-- `FrameDisposition` accepts the frame types for which `CheckFrameType` has no error, in each state.
pub accept_iff :
    (m : Machine) (ft : ℕ)
    → (frame_disposition m ft ≡ frame_accept) ↔ (check_frame_type m ft ≡ none)
unfolding frame_disposition check_frame_type
accept_iff m ft = (λ h. ground arith, λ h. ground arith)

-- A DATA or RPC frame is accepted only when the client is authorized or exchanges messages.
pub data_needs_authorized :
    (m : Machine) (ft : ℕ)
    → (ft ≡ 0x01) ⊎ (ft ≡ 0x03) ⊎ (ft ≡ 0x04)
    → frame_disposition m ft ≡ frame_accept
    → (m.state ≡ authorized) ⊎ (m.state ≡ messaging)
unfolding frame_disposition
data_needs_authorized m ft h k = ground arith
