-- ===== src/Messages/Runs.antt =====
-- Runs of handshake/handshake.go on two small hellos.
use aafp_go.Base.{
  ℕ, zero, suc, ◌≡◌, ◌⊎◌, refl, true, Bytes, [], ◌∷◌, ◌++◌, length, some, ok, ◌>>=◌, arith,
  be_bytes,
}
use aafp_go.Cbor.{no_items, item, null, Limits}
use aafp_go.Cbor.Head.{encode_head}
use aafp_go.Cbor.Encode.{int_key_less}
use aafp_go.Messages.{
  extension_to_cbor, ClientHello, ServerHello, client_hello_to_cbor, client_hello_from_cbor,
  client_hello_to_cbor_without_sig_and_mac, server_hello_to_cbor_without_sig,
  encode_handshake_message, decode_handshake_message,
}
use aafp_go.Messages.Keys.{compute_session_id, compute_receiver_mac, verify_receiver_mac}
use aafp_go.Messages.Session.{MacCollision, compute_session_id-binds}
use aafp_go.Messages.Canon.{FitsClient, FitsServer}
use aafp_go.Messages.Wire.{client_hello-wire_bytes}
use aafp_go.Messages.Transcript.{
  Collision, client_bytes, server_bytes, client_signed, server_signed, transcript_binds,
}

abbrev repeated : ℕ → ℕ → Bytes
repeated zero b = []
repeated (suc n) b = b ∷ repeated n b

-- Stand-ins for SHA-256 and HMAC-SHA256: numbers of bytes, 32 times.
abbrev counts : Bytes → Bytes
counts bs = repeated 32 (length bs)

abbrev keyed : Bytes → Bytes → Bytes
keyed key input = repeated 32 (length input)

abbrev page : Limits
page = record { max_values = 4096; max_pairs = 4096 }

abbrev hello : ClientHello
hello = record {
  protocol_version = 1;
  agent_id = 1 ∷ [];
  public_key = 2 ∷ [];
  nonce = 3 ∷ [];
  capabilities = item null no_items;
  extensions = record { ext_type = 9; data_bytes = []; critical = true } ∷ [];
  signature = 4 ∷ [];
  expires_at = 100;
  receiver_mac = some (5 ∷ []);
  key_algorithm = 1;
}

hello-FitsClient : FitsClient hello
hello-FitsClient = record {
  version = omega arith;
  expiry = omega arith;
  algorithm = omega arith;
  capabilities = (tt, tt);
  extensions = (omega arith, tt);
}

sent_length : length (encode_handshake_message (client_hello_to_cbor hello) ++ []) ≡ 35
unfolding encode_handshake_message client_hello_to_cbor extension_to_cbor encode_head be_bytes
    int_key_less
sent_length = refl

client_hello-wire_bytes_example :
    (got : ClientHello) × ((decode_handshake_message page
          (encode_handshake_message (client_hello_to_cbor hello) ++ [])
        >>= client_hello_from_cbor)
      ≡ ok got)
    × (encode_handshake_message (client_hello_to_cbor_without_sig_and_mac got)
        ≡ encode_handshake_message (client_hello_to_cbor_without_sig_and_mac hello))
    × (verify_receiver_mac keyed
          (7 ∷ [])
          (encode_handshake_message (client_hello_to_cbor_without_sig_and_mac got))
          (compute_receiver_mac keyed
            (7 ∷ [])
            (encode_handshake_message (client_hello_to_cbor_without_sig_and_mac hello)))
        ≡ true)
client_hello-wire_bytes_example =
    client_hello-wire_bytes keyed page hello [] (7 ∷ []) hello-FitsClient (record {
      is_int_len = omega (arith, sent_length);
      values_fit = omega (arith, sent_length);
      pairs_fit = omega (arith, sent_length);
    })

abbrev answer : ServerHello
answer = record {
  protocol_version = 1;
  agent_id = 6 ∷ [];
  public_key = 7 ∷ [];
  nonce = 8 ∷ [];
  capabilities = no_items;
  extensions = [];
  session_id = 9 ∷ [];
  signature = 10 ∷ [];
  expires_at = 100;
  key_algorithm = 1;
}

answer-FitsServer : FitsServer answer
answer-FitsServer = record {
  version = omega arith;
  expiry = omega arith;
  algorithm = omega arith;
  capabilities = tt;
  extensions = tt;
}

-- The same hello with another signature.
abbrev resigned : ClientHello
resigned = record hello { signature = 11 ∷ [] }

resigned-FitsClient : FitsClient resigned
resigned-FitsClient = record {
  version = omega arith;
  expiry = omega arith;
  algorithm = omega arith;
  capabilities = (tt, tt);
  extensions = (omega arith, tt);
}

length-client_bytes : length (client_bytes hello) ≡ 29
unfolding encode_handshake_message client_hello_to_cbor_without_sig_and_mac extension_to_cbor
    encode_head be_bytes int_key_less
length-client_bytes = refl

length-server_bytes : length (server_bytes answer) ≡ 24
unfolding encode_handshake_message server_hello_to_cbor_without_sig encode_head be_bytes
    int_key_less
length-server_bytes = refl

transcript_binds_example :
    Collision counts
    ⊎ ((◌≡◌ {A = Bytes} (1 ∷ []) (1 ∷ []))
        × (client_signed hello ≡ client_signed resigned)
        × (server_signed answer ≡ server_signed answer))
unfolding client_hello_to_cbor_without_sig_and_mac encode_handshake_message
transcript_binds_example =
    transcript_binds counts (λ x. refl) (1 ∷ []) (1 ∷ []) hello resigned answer answer
      hello-FitsClient resigned-FitsClient answer-FitsServer answer-FitsServer
      (omega (arith, length-client_bytes)) (omega (arith, length-server_bytes)) refl

-- With the stand-in, two transcripts of one length have one session id: the left case.
same_id :
    compute_session_id keyed (repeated 32 0) (repeated 32 2) (repeated 32 3) (repeated 32 4)
    ≡ compute_session_id keyed (repeated 32 1) (repeated 32 2) (repeated 32 3) (repeated 32 4)
unfolding compute_session_id
same_id = refl

compute_session_id-binds_example :
    MacCollision keyed
    ⊎ ((repeated 32 0 ≡ repeated 32 1)
        × (repeated 32 2 ≡ repeated 32 2)
        × (repeated 32 3 ≡ repeated 32 3)
        × (repeated 32 4 ≡ repeated 32 4))
compute_session_id-binds_example =
    compute_session_id-binds keyed (λ key input. refl) (repeated 32 0) (repeated 32 1)
      (repeated 32 2) (repeated 32 2) (repeated 32 3) (repeated 32 3) (repeated 32 4)
      (repeated 32 4) refl refl refl refl refl refl same_id
