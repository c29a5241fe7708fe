-- ===== src/Messages/Wire.antt =====
-- The client's hello over the wire.
use aafp_go.Base.{
  ◌≡◌, refl, sym, ap, ◌∙◌, Bytes, List, [], ◌∷◌, ◌++◌, length, Option, none, some, ok, ok_injective,
  ◌>>=◌, >>=-eq-ok, ◌⊎◌, inl, inr, true,
}
use aafp_go.Base.Int.{pos}
use aafp_go.Cbor.{
  Value, IntEntries, unsigned, negative, byte_string, text_string, array, str_map, boolean, int_map,
  null, Limits, int_map_get,
}
use aafp_go.Cbor.Encode.{encode}
use aafp_go.Cbor.Decode.RoundTrip.Shape.{canon, Fits}
use aafp_go.Cbor.Decode.RoundTrip.Parts.{Room}
use aafp_go.Cbor.Decode.RoundTrip.Fuel.{cbor_decode-encode}
use aafp_go.Cbor.Decode.RoundTrip.Idempotent.{encode-canon}
use aafp_go.Messages.Keys.{compute_receiver_mac, verify_receiver_mac, verify_receiver_mac_iff}
use aafp_go.Messages.{
  ExtensionEntry, extension_to_cbor, extension_from_cbor, extension_items, extensions_from_cbor,
  ClientHello, client_hello_to_cbor, client_hello_from_cbor, encode_handshake_message,
  decode_handshake_message, decoded_value, items_field, receiver_mac_field,
  client_hello_to_cbor_without_sig_and_mac,
}
use aafp_go.Messages.Canon.{
  canonical_client, client_hello-canon, client_hello_unsigned-canon, FitsClient, client_hello-Fits,
}

extension_from_cbor-to_cbor :
    (e : ExtensionEntry) → extension_from_cbor (extension_to_cbor e) ≡ ok e
unfolding extension_from_cbor extension_to_cbor int_map_get
extension_from_cbor-to_cbor e = refl

pub extensions_from_cbor-items :
    (es : List ExtensionEntry) → extensions_from_cbor (extension_items es) ≡ ok es
unfolding extensions_from_cbor
extensions_from_cbor-items [] = refl
extensions_from_cbor-items (e ∷ es) =
    rw (extension_from_cbor-to_cbor e, extensions_from_cbor-items es) refl

client_hello_from_cbor-to_cbor_with :
    (ch : ClientHello) (mac : Option Bytes)
    → client_hello_from_cbor (client_hello_to_cbor (record ch { receiver_mac = mac }))
      ≡ ok (record ch { receiver_mac = mac })
unfolding client_hello_from_cbor client_hello_to_cbor int_map_get
client_hello_from_cbor-to_cbor_with ch none = rw (extensions_from_cbor-items ch.extensions) refl
client_hello_from_cbor-to_cbor_with ch (some mac) =
    rw (extensions_from_cbor-items ch.extensions) refl

pub client_hello_from_cbor-to_cbor :
    (ch : ClientHello) → client_hello_from_cbor (client_hello_to_cbor ch) ≡ ok ch
client_hello_from_cbor-to_cbor ch = client_hello_from_cbor-to_cbor_with ch ch.receiver_mac

pub sent :
    (limits : Limits) (v : Value) (rest : Bytes)
    → Fits v
    → Room limits (length (encode_handshake_message v ++ rest))
    → decode_handshake_message limits (encode_handshake_message v ++ rest) ≡ ok (canon v)
unfolding encode_handshake_message decode_handshake_message
sent limits v rest fits room = ap decoded_value (cbor_decode-encode limits v rest fits room)

-- A client's hello that is encoded, and decoded from bytes that begin with it, comes back: the fields
-- as they were, a receiver_mac that is absent absent, and the capabilities in canonical form. Its
-- numbers fit a uint64, and the bytes are no more than an int counts and `make` allocates values for.
pub client_hello-wire :
    (limits : Limits) (ch : ClientHello) (rest : Bytes)
    → FitsClient ch
    → Room limits (length (encode_handshake_message (client_hello_to_cbor ch) ++ rest))
    → (decode_handshake_message limits (encode_handshake_message (client_hello_to_cbor ch) ++ rest)
        >>= client_hello_from_cbor)
      ≡ ok (canonical_client ch)
client_hello-wire limits ch rest fits room =
    let h = sent limits (client_hello_to_cbor ch) rest (client_hello-Fits ch fits) room in
    rw (h, client_hello-canon ch) (client_hello_from_cbor-to_cbor (canonical_client ch))

module _ (ch : ClientHello) where
  -- Neither the order of the entries in the capabilities nor the signature and the MAC are in the bytes.
  unsigned_bytes :
      encode_handshake_message (client_hello_to_cbor_without_sig_and_mac (canonical_client ch))
      ≡ encode_handshake_message (client_hello_to_cbor_without_sig_and_mac ch)
  unfolding encode_handshake_message
  unsigned_bytes =
      let v = client_hello_to_cbor_without_sig_and_mac ch in
      sym (ap encode (client_hello_unsigned-canon ch)) ∙ encode-canon v

-- The receiver of a client's hello that encodes what it decoded, without signature and MAC, gets just
-- the bytes that the sender signed and folded into its transcript, and accepts the MAC that the sender
-- computed over them for the receiver. The numbers of the hello fit a uint64, and the bytes are no more
-- than an int counts and `make` allocates values for.
pub client_hello-wire_bytes :
    (hmac : Bytes → Bytes → Bytes) (limits : Limits) (ch : ClientHello)
    (rest receiver_agent_id : Bytes)
    → FitsClient ch
    → Room limits (length (encode_handshake_message (client_hello_to_cbor ch) ++ rest))
    → (got : ClientHello) × ((decode_handshake_message limits
            (encode_handshake_message (client_hello_to_cbor ch) ++ rest)
          >>= client_hello_from_cbor)
        ≡ ok got)
      × (encode_handshake_message (client_hello_to_cbor_without_sig_and_mac got)
          ≡ encode_handshake_message (client_hello_to_cbor_without_sig_and_mac ch))
      × (verify_receiver_mac hmac receiver_agent_id
            (encode_handshake_message (client_hello_to_cbor_without_sig_and_mac got))
            (compute_receiver_mac hmac receiver_agent_id
              (encode_handshake_message (client_hello_to_cbor_without_sig_and_mac ch)))
          ≡ true)
client_hello-wire_bytes hmac limits ch rest receiver_agent_id fits room =
    let same = unsigned_bytes ch in
    let sent_bytes = encode_handshake_message (client_hello_to_cbor_without_sig_and_mac ch) in
    let got_bytes =
      encode_handshake_message (client_hello_to_cbor_without_sig_and_mac (canonical_client ch)) in
    (
      canonical_client ch,
      client_hello-wire limits ch rest fits room,
      same,
      (verify_receiver_mac_iff hmac receiver_agent_id got_bytes
            (compute_receiver_mac hmac receiver_agent_id sent_bytes)).1
          (ap (compute_receiver_mac hmac receiver_agent_id) same),
    )

-- What `receiver_mac` was read from.
mac_read :
    (o : Option Value) (mac : Option Bytes) (ch : ClientHello)
    → receiver_mac_field o ≡ ok mac
    → ch.receiver_mac ≡ mac
    → ((o ≡ none) × (ch.receiver_mac ≡ none))
      ⊎ ((b : Bytes) × (o ≡ some (byte_string b)) × (ch.receiver_mac ≡ some b))
mac_read none mac ch h same = inl (refl, same ∙ sym (ok_injective h))
mac_read (some (byte_string b)) mac ch h same = inr (b, refl, same ∙ sym (ok_injective h))
mac_read (some (unsigned n)) mac ch h same = cc
mac_read (some (negative n)) mac ch h same = cc
mac_read (some (text_string s)) mac ch h same = cc
mac_read (some (array xs)) mac ch h same = cc
mac_read (some (int_map es)) mac ch h same = cc
mac_read (some (str_map es)) mac ch h same = cc
mac_read (some (boolean b)) mac ch h same = cc
mac_read (some null) mac ch h same = cc

-- A client's hello is decoded only from a map with integer keys, which has no key 9 if the hello has no
-- receiver_mac, and a byte string under it if it has one: never a null or another kind.
pub client_hello_from_cbor-mac :
    (v : Value) (ch : ClientHello)
    → client_hello_from_cbor v ≡ ok ch
    → (es : IntEntries) × (v ≡ int_map es)
      × (((int_map_get v (pos 9) ≡ none) × (ch.receiver_mac ≡ none))
          ⊎ ((mac : Bytes) × (int_map_get v (pos 9) ≡ some (byte_string mac))
              × (ch.receiver_mac ≡ some mac)))
unfolding client_hello_from_cbor
client_hello_from_cbor-mac (int_map es) ch h =
    let (exts, _, h') =
      >>=-eq-ok (extensions_from_cbor (items_field (int_map_get (int_map es) (pos 6)))) _ h in
    let (mac, read, built) =
      >>=-eq-ok (receiver_mac_field (int_map_get (int_map es) (pos 9))) _ h' in
    let same : ch.receiver_mac ≡ mac =
      sym (ap (λ (c : ClientHello). c.receiver_mac) (ok_injective built)) in
    (es, refl, mac_read (int_map_get (int_map es) (pos 9)) mac ch read same)
client_hello_from_cbor-mac (unsigned n) ch h = cc
client_hello_from_cbor-mac (negative n) ch h = cc
client_hello_from_cbor-mac (byte_string b) ch h = cc
client_hello_from_cbor-mac (text_string s) ch h = cc
client_hello_from_cbor-mac (array xs) ch h = cc
client_hello_from_cbor-mac (str_map es) ch h = cc
client_hello_from_cbor-mac (boolean b) ch h = cc
client_hello_from_cbor-mac null ch h = cc
