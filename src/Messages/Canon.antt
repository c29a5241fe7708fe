-- ===== src/Messages/Canon.antt =====
-- The canonical forms of the handshake messages: what the decoder gives back for their encodings.
use aafp_go.Base.{◌^◌, ◌<◌, ◌≡◌, refl, Bytes, List, [], ◌∷◌, All, Option, none, some, arith}
use aafp_go.Cbor.{IntEntries, unsigned, no_ints}
use aafp_go.Cbor.Head.{encode_head}
use aafp_go.Cbor.Encode.{int_key_less}
use aafp_go.Cbor.Decode.RoundTrip.Shape.{canon, canon_items, Fits, FitsItems, FitsInts}
use aafp_go.Messages.{
  ExtensionEntry, extension_to_cbor, extension_items, ClientHello,
  client_hello_to_cbor_without_sig_and_mac, client_hello_to_cbor, ServerHello,
  server_hello_to_cbor_without_sig, ClientFinished, client_finished_to_cbor_without_sig, entry,
  receiver_mac_entry,
}

extension-canon : (e : ExtensionEntry) → canon (extension_to_cbor e) ≡ extension_to_cbor e
unfolding canon extension_to_cbor int_key_less encode_head
extension-canon e = refl

pub extension_items-canon :
    (es : List ExtensionEntry) → canon_items (extension_items es) ≡ extension_items es
unfolding canon
extension_items-canon [] = refl
extension_items-canon (e ∷ es) = rw (extension-canon e, extension_items-canon es) refl

-- The hello with its capabilities in canonical form.
abbrev pub canonical_client : ClientHello → ClientHello
canonical_client ch = record ch { capabilities = canon_items ch.capabilities }

pub client_hello_unsigned-canon :
    (ch : ClientHello)
    → canon (client_hello_to_cbor_without_sig_and_mac ch)
      ≡ client_hello_to_cbor_without_sig_and_mac (canonical_client ch)
unfolding canon client_hello_to_cbor_without_sig_and_mac int_key_less encode_head
client_hello_unsigned-canon ch = rw (extension_items-canon ch.extensions) refl

client_hello-canon_with :
    (ch : ClientHello) (mac : Option Bytes)
    → canon (client_hello_to_cbor (record ch { receiver_mac = mac }))
      ≡ client_hello_to_cbor (canonical_client (record ch { receiver_mac = mac }))
unfolding canon client_hello_to_cbor int_key_less encode_head
client_hello-canon_with ch none = rw (extension_items-canon ch.extensions) refl
client_hello-canon_with ch (some mac) = rw (extension_items-canon ch.extensions) refl

pub client_hello-canon :
    (ch : ClientHello)
    → canon (client_hello_to_cbor ch) ≡ client_hello_to_cbor (canonical_client ch)
client_hello-canon ch = client_hello-canon_with ch ch.receiver_mac

abbrev pub canonical_server : ServerHello → ServerHello
canonical_server sh = record sh { capabilities = canon_items sh.capabilities }

pub server_hello_unsigned-canon :
    (sh : ServerHello)
    → canon (server_hello_to_cbor_without_sig sh)
      ≡ server_hello_to_cbor_without_sig (canonical_server sh)
unfolding canon server_hello_to_cbor_without_sig int_key_less encode_head
server_hello_unsigned-canon sh = rw (extension_items-canon sh.extensions) refl

pub client_finished_unsigned-canon :
    (cf : ClientFinished)
    → canon (client_finished_to_cbor_without_sig cf) ≡ client_finished_to_cbor_without_sig cf
unfolding canon client_finished_to_cbor_without_sig
client_finished_unsigned-canon cf = refl

-- The numbers fit a uint64, those in the capabilities their types.
pub record FitsClient (ch : ClientHello) : Type 0 where
  pub version : ch.protocol_version < 2 ^ 64
  pub expiry : ch.expires_at < 2 ^ 64
  pub algorithm : ch.key_algorithm < 2 ^ 64
  pub capabilities : FitsItems ch.capabilities
  pub extensions : All (λ e. e.ext_type < 2 ^ 64) ch.extensions

pub record FitsServer (sh : ServerHello) : Type 0 where
  pub version : sh.protocol_version < 2 ^ 64
  pub expiry : sh.expires_at < 2 ^ 64
  pub algorithm : sh.key_algorithm < 2 ^ 64
  pub capabilities : FitsItems sh.capabilities
  pub extensions : All (λ e. e.ext_type < 2 ^ 64) sh.extensions

extension_items-Fits :
    (es : List ExtensionEntry) → All (λ e. e.ext_type < 2 ^ 64) es → FitsItems (extension_items es)
unfolding extension_to_cbor
extension_items-Fits [] h = tt
extension_items-Fits (e ∷ es) (p, h) =
    ((omega arith, p, (omega arith, tt, (omega arith, tt, tt))), extension_items-Fits es h)

pub client_hello_unsigned-Fits :
    (ch : ClientHello) → FitsClient ch → Fits (client_hello_to_cbor_without_sig_and_mac ch)
unfolding client_hello_to_cbor_without_sig_and_mac
client_hello_unsigned-Fits ch h =
    let exts = extension_items-Fits ch.extensions h.extensions in
    let last : FitsInts
        (entry 8 (unsigned ch.expires_at) (entry 10 (unsigned ch.key_algorithm) no_ints)) =
      (omega arith, h.expiry, (omega arith, h.algorithm, tt)) in
    (
      omega arith,
      h.version,
      (
        omega arith,
        tt,
        (
          omega arith,
          tt,
          (omega arith, tt, (omega arith, h.capabilities, (omega arith, exts, last))),
        ),
      ),
    )

receiver_mac_entry-Fits :
    (mac : Option Bytes) (es : IntEntries) → FitsInts es → FitsInts (receiver_mac_entry mac es)
receiver_mac_entry-Fits none es h = h
receiver_mac_entry-Fits (some mac) es h = (omega arith, tt, h)

pub client_hello-Fits : (ch : ClientHello) → FitsClient ch → Fits (client_hello_to_cbor ch)
unfolding client_hello_to_cbor
client_hello-Fits ch h =
    let exts = extension_items-Fits ch.extensions h.extensions in
    let algorithm : FitsInts (entry 10 (unsigned ch.key_algorithm) no_ints) =
      (omega arith, h.algorithm, tt) in
    let mac =
      receiver_mac_entry-Fits ch.receiver_mac (entry 10 (unsigned ch.key_algorithm) no_ints)
        algorithm in
    (
      omega arith,
      h.version,
      (
        omega arith,
        tt,
        (
          omega arith,
          tt,
          (
            omega arith,
            tt,
            (
              omega arith,
              h.capabilities,
              (omega arith, exts, (omega arith, tt, (omega arith, h.expiry, mac))),
            ),
          ),
        ),
      ),
    )

pub server_hello_unsigned-Fits :
    (sh : ServerHello) → FitsServer sh → Fits (server_hello_to_cbor_without_sig sh)
unfolding server_hello_to_cbor_without_sig
server_hello_unsigned-Fits sh h =
    let exts = extension_items-Fits sh.extensions h.extensions in
    let last : FitsInts
        (entry 9 (unsigned sh.expires_at) (entry 10 (unsigned sh.key_algorithm) no_ints)) =
      (omega arith, h.expiry, (omega arith, h.algorithm, tt)) in
    (
      omega arith,
      h.version,
      (
        omega arith,
        tt,
        (
          omega arith,
          tt,
          (
            omega arith,
            tt,
            (omega arith, h.capabilities, (omega arith, exts, (omega arith, tt, last))),
          ),
        ),
      ),
    )
