-- ===== src/Fixtures.antt =====
-- cmd/generate_interop_fixtures/main.go: the fixed inputs and the fixtures made of them, by file. The
-- handshake messages, the records and the transcript's hashes are in Peers.
pub mod Peers
pub mod Generate
pub mod Checked
pub mod Written
pub mod Agreeing
mod Runs
use aafp_go.Base.{
  ℕ, zero, suc, Bool, true, false, not, if◌then◌else◌, Bytes, List, [], ◌∷◌, ◌++◌, Option, none,
  some, Result, ok, err, panic, ◌>>=◌,
}
use aafp_go.Base.Ascii.{ascii}
use aafp_go.Base.Int.{pos, negsuc}
use aafp_go.Cbor.{
  Value, unsigned, byte_string, text_string, array, int_map, str_map, boolean, null, no_items,
  no_ints, int_entry, no_strs, str_entry, n_int,
}
use aafp_go.Cbor.Encode.{encode}
use aafp_go.Frame as Frame
use aafp_go.Messages.{
  ClientHello, client_hello_to_cbor_without_sig_and_mac, ServerHello,
  server_hello_to_cbor_without_sig, ClientFinished, client_finished_to_cbor_without_sig, entry,
}
use aafp_go.Messages.Transcript.{new_transcript_hash, update, current, TranscriptHash}
use aafp_go.Messages.Keys.{compute_session_id}
use aafp_go.Identity.{
  Order, AgentRecord, CapabilityDescriptor, record_type_v1, agent_id_from_pubkey,
  to_cbor_without_sig, to_cbor,
}

unfoldable pub bytes_filled : ℕ → ℕ → Bytes
bytes_filled zero b = []
bytes_filled (suc n) b = b ∷ bytes_filled n b

unfoldable pub public_key_a : Bytes
unfolding bytes_filled
public_key_a = bytes_filled 1952 0x42

unfoldable pub public_key_b : Bytes
unfolding bytes_filled
public_key_b = bytes_filled 1952 0x43

unfoldable pub signature_a : Bytes
unfolding bytes_filled
signature_a = bytes_filled 3309 0x44

unfoldable pub nonce_a : Bytes
unfolding bytes_filled
nonce_a = bytes_filled 32 0x03

unfoldable pub nonce_b : Bytes
unfolding bytes_filled
nonce_b = bytes_filled 32 0x04

unfoldable pub tls_binding : Bytes
unfolding bytes_filled
tls_binding = bytes_filled 32 0x05

unfoldable pub session_id_fixed : Bytes
unfolding bytes_filled
session_id_fixed = bytes_filled 32 0x06

abbrev pub timestamp_now : ℕ
timestamp_now = 1735689600

abbrev pub timestamp_exp : ℕ
timestamp_exp = 1736294400

abbrev pub key_alg : ℕ
key_alg = 1

-- The values written by `writeCbor`, by their file.
abbrev pub Values : Type 0
Values = List (Bytes × Value)

abbrev pub text : Bytes → Value
text s = text_string s

unfoldable pub cbor_fixtures : Values
unfolding n_int bytes_filled
cbor_fixtures =
    (ascii "uint_5.bin", unsigned 5)
    ∷ (ascii "uint_24.bin", unsigned 24)
    ∷ (ascii "uint_100.bin", unsigned 100)
    ∷ (ascii "uint_1000.bin", unsigned 1000)
    ∷ (ascii "negative_1.bin", n_int (negsuc 0))
    ∷ (ascii "negative_100.bin", n_int (negsuc 99))
    ∷ (ascii "bool_true.bin", boolean true)
    ∷ (ascii "bool_false.bin", boolean false)
    ∷ (ascii "null.bin", null)
    ∷ (ascii "bstr_32.bin", byte_string (bytes_filled 32 0xaa))
    ∷ (ascii "tstr_hello.bin", text (ascii "hello"))
    ∷ (ascii "empty_array.bin", array no_items)
    ∷ (ascii "empty_map.bin", int_map no_ints)
    ∷ (
      ascii "int_map_sorted.bin",
      int_map (entry 1 (text (ascii "a")) (entry 100 (text (ascii "b")) no_ints)),
    )
    ∷ (
      ascii "int_map_same_length.bin",
      int_map (entry 10 (unsigned 1) (entry 20 (unsigned 2) no_ints)),
    )
    ∷ (
      ascii "str_map_sorted.bin",
      str_map (
          str_entry (ascii "cat") (unsigned 1) (
            str_entry (ascii "apple") (unsigned 2)
              (str_entry (ascii "zebra") (unsigned 3) no_strs))),
    )
    ∷ []

unfoldable pub frame_fixtures : List (Bytes × Frame.Frame)
frame_fixtures =
    (
      ascii "data_empty.bin",
      record {
        version_byte = Frame.version;
        frame_type = Frame.type_data;
        flags = 0;
        stream_id = 0;
        extensions = [];
        payload = [];
      },
    )
    ∷ (
      ascii "data_stream42.bin",
      record {
        version_byte = Frame.version;
        frame_type = Frame.type_data;
        flags = 0;
        stream_id = 42;
        extensions = [];
        payload = 0xde ∷ 0xad ∷ 0xbe ∷ 0xef ∷ [];
      },
    )
    ∷ (
      ascii "handshake.bin",
      record {
        version_byte = Frame.version;
        frame_type = Frame.type_handshake;
        flags = 0;
        stream_id = 0;
        extensions = [];
        payload = 0x01 ∷ 0x02 ∷ 0x03 ∷ 0x04 ∷ 0x05 ∷ 0x06 ∷ 0x07 ∷ 0x08 ∷ [];
      },
    )
    ∷ (
      ascii "rpc_request.bin",
      record {
        version_byte = Frame.version;
        frame_type = Frame.type_rpc_request;
        flags = 0;
        stream_id = 4;
        extensions = [];
        payload = 0xa1 ∷ 0x01 ∷ 0x02 ∷ [];
      },
    )
    ∷ (
      ascii "ping.bin",
      record {
        version_byte = Frame.version;
        frame_type = Frame.type_ping;
        flags = 0;
        stream_id = 0;
        extensions = [];
        payload = [];
      },
    )
    ∷ (
      ascii "data_flags_more.bin",
      record {
        version_byte = Frame.version;
        frame_type = Frame.type_data;
        flags = Frame.flag_more;
        stream_id = 8;
        extensions = [];
        payload = 0xff ∷ [];
      },
    )
    ∷ []

unfoldable pub rpc_fixtures : Values
rpc_fixtures =
    (
      ascii "request_basic.bin",
      int_map (
          entry 1 (unsigned 1)
            (entry 2 (text (ascii "aafp.discovery.lookup")) (entry 3 null no_ints))),
    )
    ∷ (
      ascii "request_with_params.bin",
      int_map (
          entry 1 (unsigned 42) (
            entry 2 (text (ascii "aafp.discovery.lookup"))
              (entry 3 (text (ascii "inference")) no_ints))),
    )
    ∷ (
      ascii "response_success.bin",
      int_map (entry 1 (unsigned 42) (entry 2 (unsigned 100) (entry 3 null no_ints))),
    )
    ∷ (
      ascii "response_error.bin",
      int_map (
          entry 1 (unsigned 42) (
            entry 2 null (
              entry 3
                (int_map (
                  entry 1 (unsigned 4005)
                    (entry 2 (text (ascii "not found")) (entry 3 null no_ints))))
                no_ints))),
    )
    ∷ (
      ascii "close_message.bin",
      int_map (entry 1 (unsigned 0) (entry 2 (text (ascii "goodbye")) no_ints)),
    )
    ∷ (
      ascii "error_message_fatal.bin",
      int_map (
          entry 1 (unsigned 2001) (
            entry 2 (text (ascii "invalid signature"))
              (entry 3 null (entry 4 (boolean true) no_ints)))),
    )
    ∷ []

unfoldable pub manifest : Bytes
manifest =
    ascii "{\"version\":\"aafp-v1-interop-fixtures-go-1\",\"generated_by\":\"go-independent\"}"
