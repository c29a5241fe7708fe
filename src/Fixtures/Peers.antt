-- ===== src/Fixtures/Peers.antt =====
-- The handshake messages and the agent records of cmd/generate_interop_fixtures/main.go, and the
-- transcript's hashes. SHA-256, HMAC-SHA256 and the order of a map's range are arguments.
use aafp_go.Base.{ℕ, Bytes, List, [], ◌∷◌, none}
use aafp_go.Base.Ascii.{ascii}
use aafp_go.Cbor.{Value, no_items}
use aafp_go.Cbor.Encode.{encode}
use aafp_go.Messages.{
  ClientHello, client_hello_to_cbor_without_sig_and_mac, ServerHello,
  server_hello_to_cbor_without_sig, ClientFinished, client_finished_to_cbor_without_sig,
}
use aafp_go.Messages.Transcript.{new_transcript_hash, update, current}
use aafp_go.Messages.Keys.{compute_session_id}
use aafp_go.Identity.{
  Order, AgentRecord, CapabilityDescriptor, record_type_v1, agent_id_from_pubkey,
  to_cbor_without_sig, to_cbor,
}
use aafp_go.Fixtures.{
  Values, key_alg, nonce_a, nonce_b, public_key_a, public_key_b, session_id_fixed, signature_a,
  text, timestamp_exp, timestamp_now, tls_binding,
}

-- The optional fields that a literal leaves out are nil or 0.
module _ (sha256 : Bytes → Bytes) where
  unfoldable pub agent_id_a : Bytes
  unfolding agent_id_from_pubkey public_key_a
  agent_id_a = agent_id_from_pubkey sha256 public_key_a

  unfoldable pub agent_id_b : Bytes
  unfolding agent_id_from_pubkey public_key_b
  agent_id_b = agent_id_from_pubkey sha256 public_key_b

  unfoldable pub hello : ClientHello
  unfolding agent_id_a public_key_a nonce_a
  hello = record {
    protocol_version = 1;
    agent_id = agent_id_a;
    public_key = public_key_a;
    nonce = nonce_a;
    capabilities = no_items;
    extensions = [];
    signature = [];
    expires_at = timestamp_exp;
    receiver_mac = none;
    key_algorithm = key_alg;
  }

  unfoldable pub answer : ServerHello
  unfolding agent_id_b public_key_b nonce_b session_id_fixed
  answer = record {
    protocol_version = 1;
    agent_id = agent_id_b;
    public_key = public_key_b;
    nonce = nonce_b;
    capabilities = no_items;
    extensions = [];
    session_id = session_id_fixed;
    signature = [];
    expires_at = timestamp_exp;
    key_algorithm = key_alg;
  }

  unfoldable pub finished : ClientFinished
  unfolding session_id_fixed
  finished = record { session_id = session_id_fixed; signature = [] }

  abbrev pub hello_value : Value
  hello_value = client_hello_to_cbor_without_sig_and_mac hello

  abbrev pub answer_value : Value
  answer_value = server_hello_to_cbor_without_sig answer

  abbrev pub finished_value : Value
  finished_value = client_finished_to_cbor_without_sig finished

  unfoldable pub handshake_fixtures : Values
  handshake_fixtures =
      (ascii "client_hello_without_sig.bin", hello_value)
      ∷ (ascii "server_hello_without_sig.bin", answer_value)
      ∷ (ascii "client_finished_without_sig.bin", finished_value)
      ∷ []

  -- One record by what the three literals differ in.
  abbrev agent_record : Bytes → Bytes → List CapabilityDescriptor → List Bytes → Bytes → AgentRecord
  agent_record id key capabilities endpoints signature = record {
    record_type = record_type_v1;
    agent_id = id;
    public_key = key;
    capabilities = capabilities;
    endpoints = endpoints;
    created_at = timestamp_now;
    expires_at = timestamp_exp;
    signature = signature;
    key_algorithm = key_alg;
    record_version = 0;
  }

  unfoldable pub record_a : AgentRecord
  unfolding agent_id_a public_key_a
  record_a =
      agent_record agent_id_a public_key_a
        (record {
          name = ascii "inference";
          metadata = (ascii "model", text (ascii "test-model")) ∷ [];
        }
          ∷ [])
        (ascii "/ip4/127.0.0.1/tcp/4001" ∷ []) []

  unfoldable pub record_b : AgentRecord
  unfolding agent_id_b public_key_b
  record_b = agent_record agent_id_b public_key_b [] [] []

  unfoldable pub record_with_sig : AgentRecord
  unfolding agent_id_a public_key_a signature_a
  record_with_sig =
      agent_record agent_id_a public_key_a (record { name = ascii "inference"; metadata = [] } ∷ [])
        (ascii "/ip4/127.0.0.1/tcp/4001" ∷ []) signature_a

  unfoldable pub record_fixtures : (ℕ → Order) → Values
  unfolding record_a record_b record_with_sig
  record_fixtures orders =
      (ascii "without_sig.bin", to_cbor_without_sig orders record_a)
      ∷ (ascii "empty_capabilities.bin", to_cbor_without_sig orders record_b)
      ∷ (ascii "with_sig.bin", to_cbor orders record_with_sig)
      ∷ []

-- The hash after each message, in turn, and the session id from the hash after the client's hello.
module _ (sha256 : Bytes → Bytes) (hmac : Bytes → Bytes → Bytes) where
  unfoldable pub transcript_fixtures : List (Bytes × Bytes)
  unfolding encode new_transcript_hash update current nonce_a nonce_b agent_id_b
  transcript_fixtures =
      let th0 = new_transcript_hash sha256 tls_binding in
      let th1 = update sha256 th0 (encode (hello_value sha256)) in
      let th2 = update sha256 th1 (encode (answer_value sha256)) in
      let th3 = update sha256 th2 (encode (finished_value sha256)) in
      (ascii "hash_init.bin", current sha256 th0)
      ∷ (ascii "hash_after_clienthello.bin", current sha256 th1)
      ∷ (ascii "hash_after_serverhello.bin", current sha256 th2)
      ∷ (ascii "hash_after_clientfinished.bin", current sha256 th3)
      ∷ (
        ascii "session_id.bin",
        compute_session_id hmac (current sha256 th1) nonce_a nonce_b (agent_id_b sha256),
      )
      ∷ []
