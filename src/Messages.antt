-- ===== src/Messages.antt =====
-- handshake/handshake.go: the three handshake messages as CBOR maps with integer keys, and their wire
-- form. A byte slice is its bytes, nil or not; only `ReceiverMac` tells nil (`none`) from empty. An
-- array of values is the items of a CBOR array. The children hold the transcript and the derived keys.
pub mod Keys
pub mod Session
pub mod Canon
pub mod Wire
pub mod Transcript
mod Runs
use aafp_go.Base.{
  ℕ, Bool, true, false, Bytes, List, [], ◌∷◌, ◌++◌, Option, none, some, Result, ok, err, panic,
  ◌>>=◌,
}
use aafp_go.Base.Int.{ℤ, pos}
use aafp_go.Cbor.{
  Value, Items, IntEntries, unsigned, byte_string, array, int_map, boolean, null, no_items, item,
  no_ints, int_entry, int_map_get, Limits, CborError,
}
use aafp_go.Cbor.Encode.{encode}
use aafp_go.Cbor.Decode.{decode}

pub data MessageError : Type 0 where
  extension_not_int_map hello_not_int_map receiver_mac_null receiver_mac_not_bytes : MessageError
  cbor_failed : CborError → MessageError

pub record ExtensionEntry : Type 0 where
  pub ext_type : ℕ
  pub data_bytes : Bytes
  pub critical : Bool

-- The entry under a positive key.
abbrev pub entry : ℕ → Value → IntEntries → IntEntries
entry k v es = int_entry (pos k) v es

unfoldable pub extension_to_cbor : ExtensionEntry → Value
extension_to_cbor e = int_map (
    entry 1 (unsigned e.ext_type)
      (entry 2 (byte_string e.data_bytes) (entry 3 (boolean e.critical) no_ints)))

-- `if val := v.IntMapGet(key); val != nil && val.Kind() == ... { field = ... }` for each kind, where the
-- field is otherwise left at its zero value.
abbrev pub unsigned_field : Option Value → ℕ
unsigned_field (some (unsigned n)) = n
unsigned_field _ = 0

abbrev pub bytes_field : Option Value → Bytes
bytes_field (some (byte_string b)) = b
bytes_field _ = []

abbrev pub bool_field : Option Value → Bool
bool_field (some (boolean b)) = b
bool_field _ = false

abbrev pub items_field : Option Value → Items
items_field (some (array xs)) = xs
items_field _ = no_items

unfoldable pub extension_from_cbor : Value → Result MessageError ExtensionEntry
unfolding int_map_get
extension_from_cbor (int_map es) = ok (record {
  ext_type = unsigned_field (int_map_get (int_map es) (pos 1));
  data_bytes = bytes_field (int_map_get (int_map es) (pos 2));
  critical = bool_field (int_map_get (int_map es) (pos 3));
})
extension_from_cbor _ = err extension_not_int_map

-- `extArr`
abbrev pub extension_items : List ExtensionEntry → Items
extension_items [] = no_items
extension_items (e ∷ es) = item (extension_to_cbor e) (extension_items es)

-- The loop over key 6, which stops at the first error.
unfoldable pub extensions_from_cbor : Items → Result MessageError (List ExtensionEntry)
unfolding extension_from_cbor
extensions_from_cbor no_items = ok []
extensions_from_cbor (item v xs) = do
  e ← extension_from_cbor v
  es ← extensions_from_cbor xs
  ok (e ∷ es)

pub record ClientHello : Type 0 where
  pub protocol_version : ℕ
  pub agent_id : Bytes
  pub public_key : Bytes
  pub nonce : Bytes
  pub capabilities : Items
  pub extensions : List ExtensionEntry
  pub signature : Bytes
  pub expires_at : ℕ
  pub receiver_mac : Option Bytes
  pub key_algorithm : ℕ

unfoldable pub client_hello_to_cbor_without_sig_and_mac : ClientHello → Value
client_hello_to_cbor_without_sig_and_mac ch = int_map (
    entry 1 (unsigned ch.protocol_version) (
      entry 2 (byte_string ch.agent_id) (
        entry 3 (byte_string ch.public_key) (
          entry 4 (byte_string ch.nonce) (
            entry 5 (array ch.capabilities) (
              entry 6 (array (extension_items ch.extensions)) (
                entry 8 (unsigned ch.expires_at)
                  (entry 10 (unsigned ch.key_algorithm) no_ints))))))))

-- The entry for `ReceiverMac`, unless it is nil, before those that follow.
abbrev pub receiver_mac_entry : Option Bytes → IntEntries → IntEntries
receiver_mac_entry none es = es
receiver_mac_entry (some mac) es = entry 9 (byte_string mac) es

unfoldable pub client_hello_to_cbor : ClientHello → Value
client_hello_to_cbor ch = int_map (
    entry 1 (unsigned ch.protocol_version) (
      entry 2 (byte_string ch.agent_id) (
        entry 3 (byte_string ch.public_key) (
          entry 4 (byte_string ch.nonce) (
            entry 5 (array ch.capabilities) (
              entry 6 (array (extension_items ch.extensions)) (
                entry 7 (byte_string ch.signature) (
                  entry 8 (unsigned ch.expires_at) (
                    receiver_mac_entry ch.receiver_mac
                      (entry 10 (unsigned ch.key_algorithm) no_ints))))))))))

-- Key 9, which must be a byte string where there is one.
abbrev pub receiver_mac_field : Option Value → Result MessageError (Option Bytes)
receiver_mac_field none = ok none
receiver_mac_field (some (byte_string mac)) = ok (some mac)
receiver_mac_field (some null) = err receiver_mac_null
receiver_mac_field _ = err receiver_mac_not_bytes

unfoldable pub client_hello_from_cbor : Value → Result MessageError ClientHello
unfolding int_map_get extensions_from_cbor
client_hello_from_cbor (int_map es) = do
  extensions ← extensions_from_cbor (items_field (int_map_get (int_map es) (pos 6)))
  mac ← receiver_mac_field (int_map_get (int_map es) (pos 9))
  ok (record {
    protocol_version = unsigned_field (int_map_get (int_map es) (pos 1));
    agent_id = bytes_field (int_map_get (int_map es) (pos 2));
    public_key = bytes_field (int_map_get (int_map es) (pos 3));
    nonce = bytes_field (int_map_get (int_map es) (pos 4));
    capabilities = items_field (int_map_get (int_map es) (pos 5));
    extensions = extensions;
    signature = bytes_field (int_map_get (int_map es) (pos 7));
    expires_at = unsigned_field (int_map_get (int_map es) (pos 8));
    receiver_mac = mac;
    key_algorithm = unsigned_field (int_map_get (int_map es) (pos 10));
  })
client_hello_from_cbor _ = err hello_not_int_map

pub record ServerHello : Type 0 where
  pub protocol_version : ℕ
  pub agent_id : Bytes
  pub public_key : Bytes
  pub nonce : Bytes
  pub capabilities : Items
  pub extensions : List ExtensionEntry
  pub session_id : Bytes
  pub signature : Bytes
  pub expires_at : ℕ
  pub key_algorithm : ℕ

unfoldable pub server_hello_entries_without_sig : ServerHello → IntEntries → IntEntries
server_hello_entries_without_sig sh rest = entry 1 (unsigned sh.protocol_version) (
    entry 2 (byte_string sh.agent_id) (
      entry 3 (byte_string sh.public_key) (
        entry 4 (byte_string sh.nonce) (
          entry 5 (array sh.capabilities) (
            entry 6 (array (extension_items sh.extensions)) (
              entry 7 (byte_string sh.session_id)
                (entry 9 (unsigned sh.expires_at) (entry 10 (unsigned sh.key_algorithm) rest))))))))

unfoldable pub server_hello_to_cbor_without_sig : ServerHello → Value
unfolding server_hello_entries_without_sig
server_hello_to_cbor_without_sig sh = int_map (server_hello_entries_without_sig sh no_ints)

-- The signature is appended, under key 8.
unfoldable pub server_hello_to_cbor : ServerHello → Value
unfolding server_hello_entries_without_sig
server_hello_to_cbor sh =
    int_map (server_hello_entries_without_sig sh (entry 8 (byte_string sh.signature) no_ints))

pub record ClientFinished : Type 0 where
  pub session_id : Bytes
  pub signature : Bytes

unfoldable pub client_finished_to_cbor_without_sig : ClientFinished → Value
client_finished_to_cbor_without_sig cf = int_map (entry 1 (byte_string cf.session_id) no_ints)

unfoldable pub client_finished_to_cbor : ClientFinished → Value
client_finished_to_cbor cf =
    int_map (entry 1 (byte_string cf.session_id) (entry 2 (byte_string cf.signature) no_ints))

unfoldable pub encode_handshake_message : Value → Bytes
unfolding encode
encode_handshake_message v = encode v

-- The value without its length, the decoder's error wrapped.
abbrev pub decoded_value : Result CborError (Value × ℕ) → Result MessageError Value
decoded_value (ok r) = ok r.0
decoded_value (err e) = err (cbor_failed e)
decoded_value panic = panic

-- What follows the first value of the data is ignored.
unfoldable pub decode_handshake_message : Limits → Bytes → Result MessageError Value
unfolding decode
decode_handshake_message limits input = decoded_value (decode limits input)
