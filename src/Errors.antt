-- ===== src/Errors.antt =====
-- errors/errors.go: the error codes and `IsAlwaysFatal`.
use aafp_go.Base.{ℕ, Bool, ◌&&◌, ◌||◌, leb, ◌==◌}

abbrev pub no_error : ℕ
no_error = 0

abbrev pub partial : ℕ
partial = 1

abbrev pub not_found : ℕ
not_found = 2

abbrev pub connection_reset : ℕ
connection_reset = 1001

abbrev pub connection_timeout : ℕ
connection_timeout = 1002

abbrev pub stream_closed : ℕ
stream_closed = 1003

abbrev pub stream_reset : ℕ
stream_reset = 1004

abbrev pub flow_control_error : ℕ
flow_control_error = 1005

abbrev pub transport_unreachable : ℕ
transport_unreachable = 1006

abbrev pub transport_refused : ℕ
transport_refused = 1007

abbrev pub invalid_signature : ℕ
invalid_signature = 2001

abbrev pub identity_expired : ℕ
identity_expired = 2002

abbrev pub unknown_agent : ℕ
unknown_agent = 2003

abbrev pub version_mismatch : ℕ
version_mismatch = 2004

abbrev pub unsupported_extensions : ℕ
unsupported_extensions = 2005

abbrev pub handshake_failed : ℕ
handshake_failed = 2006

abbrev pub invalid_agent_id : ℕ
invalid_agent_id = 2007

abbrev pub nonce_reuse : ℕ
nonce_reuse = 2008

abbrev pub receiver_mac_invalid : ℕ
receiver_mac_invalid = 2009

abbrev pub unsupported_algorithm : ℕ
unsupported_algorithm = 2010

abbrev pub unauthorized : ℕ
unauthorized = 3001

abbrev pub insufficient_capability : ℕ
insufficient_capability = 3002

abbrev pub delegation_chain_invalid : ℕ
delegation_chain_invalid = 3003

abbrev pub token_expired : ℕ
token_expired = 3004

abbrev pub token_revoked : ℕ
token_revoked = 3005

abbrev pub delegation_depth_exceeded : ℕ
delegation_depth_exceeded = 3006

abbrev pub dht_error : ℕ
dht_error = 4001

abbrev pub bootstrap_failed : ℕ
bootstrap_failed = 4002

abbrev pub record_invalid : ℕ
record_invalid = 4003

abbrev pub record_expired : ℕ
record_expired = 4004

abbrev pub capability_not_found : ℕ
capability_not_found = 4005

abbrev pub announcement_rejected : ℕ
announcement_rejected = 4006

abbrev pub malformed_frame : ℕ
malformed_frame = 5001

abbrev pub unknown_method : ℕ
unknown_method = 5002

abbrev pub serialization_error : ℕ
serialization_error = 5003

abbrev pub method_params_invalid : ℕ
method_params_invalid = 5004

abbrev pub message_too_large : ℕ
message_too_large = 5005

abbrev pub stream_not_found : ℕ
stream_not_found = 5006

abbrev pub negotiation_failed : ℕ
negotiation_failed = 6001

abbrev pub incompatible : ℕ
incompatible = 6002

abbrev pub unsupported_capability : ℕ
unsupported_capability = 6003

abbrev pub capability_overloaded : ℕ
capability_overloaded = 6004

abbrev pub frame_too_large : ℕ
frame_too_large = 8001

abbrev pub unexpected_compression : ℕ
unexpected_compression = 8002

abbrev pub handshake_on_wrong_stream : ℕ
handshake_on_wrong_stream = 8003

abbrev pub unknown_critical_frame_type : ℕ
unknown_critical_frame_type = 8004

abbrev pub unknown_critical_extension : ℕ
unknown_critical_extension = 8005

abbrev pub invalid_version : ℕ
invalid_version = 8006

abbrev pub invalid_flags : ℕ
invalid_flags = 8007

abbrev pub reserved_field_nonzero : ℕ
reserved_field_nonzero = 8008

abbrev pub protocol_violation : ℕ
protocol_violation = 8009

unfoldable pub is_always_fatal : ℕ → Bool
is_always_fatal code =
    leb 2000 code && leb code 2999
    || code == unknown_critical_frame_type
    || code == unknown_critical_extension
    || code == invalid_version
    || code == protocol_violation
