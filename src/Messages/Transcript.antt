-- ===== src/Messages/Transcript.antt =====
-- The transcript hash, and what two equal transcripts have in common. SHA-256 is a function of bytes
-- that gives 32 bytes; nothing else is said of it, and two inputs with one hash are named where a
-- theorem needs there to be none.
use aafp_go.Base.{
  ◌≡◌, ◌≢◌, ◌⊎◌, inl, inr, refl, sym, ap, ◌∙◌, Bytes, bytes_eq, bytes_eq_iff, append_split, List,
  [], ◌∷◌, ◌++◌, length, none, Result, ok, ok_injective, ◌>>=◌, Bool-cases, arith, ◌≤◌,
}
use aafp_go.Base.Int.{pos}
use aafp_go.Cbor.{Value, int_map_get}
use aafp_go.Cbor.Decode.{max_int}
use aafp_go.Cbor.Decode.RoundTrip.Injective.{encode_iff}
use aafp_go.Messages.{
  MessageError, extensions_from_cbor, ClientHello, client_hello_to_cbor_without_sig_and_mac,
  client_hello_from_cbor, ServerHello, server_hello_to_cbor_without_sig, unsigned_field,
  bytes_field, items_field, encode_handshake_message,
}
use aafp_go.Messages.Canon.{
  canonical_client, canonical_server, client_hello_unsigned-canon, server_hello_unsigned-canon,
  FitsClient, FitsServer, client_hello_unsigned-Fits, server_hello_unsigned-Fits,
}
use aafp_go.Messages.Wire.{extensions_from_cbor-items}

pub record TranscriptHash : Type 0 where
  pub state : Bytes

module _ (sha256 : Bytes → Bytes) where
  unfoldable pub new_transcript_hash : Bytes → TranscriptHash
  new_transcript_hash tls_binding = record { state = sha256 tls_binding }

  unfoldable pub update : TranscriptHash → Bytes → TranscriptHash
  update t input = record { state = sha256 (t.state ++ input) }

  unfoldable pub current : TranscriptHash → Bytes
  current t = t.state

  -- The updates of one handshake, in order.
  abbrev pub update_all : TranscriptHash → List Bytes → TranscriptHash
  update_all t [] = t
  update_all t (m ∷ ms) = update_all (update t m) ms

  -- Two inputs with one hash.
  abbrev pub Collision : Type 0
  Collision = (x : Bytes) × (y : Bytes) × (x ≢ y) × (sha256 x ≡ sha256 y)

  collide : (x y : Bytes) → sha256 x ≡ sha256 y → Collision ⊎ (x ≡ y)
  collide x y h = elim (Bool-cases (bytes_eq x y)) [
    | inl same ↦ inr ((bytes_eq_iff x y).0 same)
    | inr differ ↦ inl (x, y, (λ same. let self = (bytes_eq_iff x y).1 same in cc), h)
  ]

  module _ (size : (x : Bytes) → length (sha256 x) ≡ 32) where
    update_all-inj :
        (t t' : TranscriptHash) (ms ms' : List Bytes)
        → length t.state ≡ 32
        → length t'.state ≡ 32
        → length ms ≡ length ms'
        → current (update_all t ms) ≡ current (update_all t' ms')
        → Collision ⊎ ((t.state ≡ t'.state) × (ms ≡ ms'))
    unfolding update current
    update_all-inj t t' [] [] l l' len h = inr (h, refl)
    update_all-inj t t' [] (m ∷ ms) l l' len h = absurd (omega arith)
    update_all-inj t t' (m ∷ ms) [] l l' len h = absurd (omega arith)
    update_all-inj t t' (m ∷ ms) (m' ∷ ms') l l' len h =
        elim (update_all-inj (update t m) (update t' m') ms ms' (size (t.state ++ m))
          (size (t'.state ++ m')) (omega arith) h) [
            | inl c ↦ inl c
            | inr (states, rest) ↦ elim (collide (t.state ++ m) (t'.state ++ m') states) [
              | inl c ↦ inl c
              | inr joined ↦
                  let (front, back) = append_split t.state t'.state m m' (l ∙ sym l') joined in
                  inr (front, cc)
            ]
          ]

    -- Two transcripts of as many messages that end in one hash have the same TLS binding and the same
    -- messages, each the same bytes, or two inputs of SHA-256 with one hash are found.
    pub transcript-inj :
        (b b' : Bytes) (ms ms' : List Bytes)
        → length ms ≡ length ms'
        → current (update_all (new_transcript_hash b) ms)
          ≡ current (update_all (new_transcript_hash b') ms')
        → Collision ⊎ ((b ≡ b') × (ms ≡ ms'))
    unfolding new_transcript_hash
    transcript-inj b b' ms ms' len h =
        elim (update_all-inj (new_transcript_hash b) (new_transcript_hash b') ms ms' (size b)
          (size b') len h) [
            | inl c ↦ inl c
            | inr (states, same) ↦ elim (collide b b' states) [
              | inl c ↦ inl c
              | inr bindings ↦ inr (bindings, same)
            ]
          ]

-- What of a client's hello goes into the transcript.
abbrev pub client_signed : ClientHello → ClientHello
client_signed ch = record (canonical_client ch) { signature = []; receiver_mac = none }

client_hello_from_cbor-unsigned :
    (ch : ClientHello)
    → client_hello_from_cbor (client_hello_to_cbor_without_sig_and_mac ch)
      ≡ ok (record ch { signature = []; receiver_mac = none })
unfolding client_hello_from_cbor client_hello_to_cbor_without_sig_and_mac int_map_get
client_hello_from_cbor-unsigned ch = rw (extensions_from_cbor-items ch.extensions) refl

client_hello_unsigned-inj :
    (ch ch' : ClientHello)
    → client_hello_to_cbor_without_sig_and_mac (canonical_client ch)
      ≡ client_hello_to_cbor_without_sig_and_mac (canonical_client ch')
    → client_signed ch ≡ client_signed ch'
client_hello_unsigned-inj ch ch' h = ok_injective (
    sym (client_hello_from_cbor-unsigned (canonical_client ch))
    ∙ ap client_hello_from_cbor h
    ∙ client_hello_from_cbor-unsigned (canonical_client ch'))

abbrev pub server_signed : ServerHello → ServerHello
server_signed sh = record (canonical_server sh) { signature = [] }

-- The fields back from the value that is signed.
server_fields : Value → Result MessageError ServerHello
server_fields v = extensions_from_cbor (items_field (int_map_get v (pos 6))) >>= λ extensions.
    ok (record {
      protocol_version = unsigned_field (int_map_get v (pos 1));
      agent_id = bytes_field (int_map_get v (pos 2));
      public_key = bytes_field (int_map_get v (pos 3));
      nonce = bytes_field (int_map_get v (pos 4));
      capabilities = items_field (int_map_get v (pos 5));
      extensions = extensions;
      session_id = bytes_field (int_map_get v (pos 7));
      signature = [];
      expires_at = unsigned_field (int_map_get v (pos 9));
      key_algorithm = unsigned_field (int_map_get v (pos 10));
    })

server_fields-unsigned :
    (sh : ServerHello)
    → server_fields (server_hello_to_cbor_without_sig sh) ≡ ok (record sh { signature = [] })
unfolding server_fields server_hello_to_cbor_without_sig int_map_get
server_fields-unsigned sh = rw (extensions_from_cbor-items sh.extensions) refl

server_hello_unsigned-inj :
    (sh sh' : ServerHello)
    → server_hello_to_cbor_without_sig (canonical_server sh)
      ≡ server_hello_to_cbor_without_sig (canonical_server sh')
    → server_signed sh ≡ server_signed sh'
server_hello_unsigned-inj sh sh' h = ok_injective (
    sym (server_fields-unsigned (canonical_server sh))
    ∙ ap server_fields h
    ∙ server_fields-unsigned (canonical_server sh'))

-- The bytes of the two hellos in the transcript.
abbrev pub client_bytes : ClientHello → Bytes
client_bytes ch = encode_handshake_message (client_hello_to_cbor_without_sig_and_mac ch)

abbrev pub server_bytes : ServerHello → Bytes
server_bytes sh = encode_handshake_message (server_hello_to_cbor_without_sig sh)

client_bytes-inj :
    (ch ch' : ClientHello)
    → FitsClient ch
    → FitsClient ch'
    → length (client_bytes ch) ≤ max_int
    → client_bytes ch ≡ client_bytes ch'
    → client_signed ch ≡ client_signed ch'
unfolding encode_handshake_message
client_bytes-inj ch ch' f f' small h = client_hello_unsigned-inj ch ch' (
    sym (client_hello_unsigned-canon ch)
    ∙ (encode_iff (client_hello_to_cbor_without_sig_and_mac ch)
          (client_hello_to_cbor_without_sig_and_mac ch') (client_hello_unsigned-Fits ch f)
          (client_hello_unsigned-Fits ch' f') small).0
        h
    ∙ client_hello_unsigned-canon ch')

server_bytes-inj :
    (sh sh' : ServerHello)
    → FitsServer sh
    → FitsServer sh'
    → length (server_bytes sh) ≤ max_int
    → server_bytes sh ≡ server_bytes sh'
    → server_signed sh ≡ server_signed sh'
unfolding encode_handshake_message
server_bytes-inj sh sh' f f' small h = server_hello_unsigned-inj sh sh' (
    sym (server_hello_unsigned-canon sh)
    ∙ (encode_iff (server_hello_to_cbor_without_sig sh) (server_hello_to_cbor_without_sig sh')
          (server_hello_unsigned-Fits sh f) (server_hello_unsigned-Fits sh' f') small).0
        h
    ∙ server_hello_unsigned-canon sh')

-- Two handshakes whose transcripts agree after both hellos had the same TLS binding and the same
-- hellos in every field that is signed, the capabilities up to the order of map entries; or two inputs
-- of SHA-256 with one hash are found. SHA-256 gives 32 bytes, the numbers of the hellos fit their Go
-- types, and an int counts the bytes of the first two.
pub transcript_binds :
    (sha256 : Bytes → Bytes) (size : (x : Bytes) → length (sha256 x) ≡ 32) (b b' : Bytes)
    (ch ch' : ClientHello) (sh sh' : ServerHello)
    → FitsClient ch
    → FitsClient ch'
    → FitsServer sh
    → FitsServer sh'
    → length (client_bytes ch) ≤ max_int
    → length (server_bytes sh) ≤ max_int
    → current sha256
        (update_all sha256 (new_transcript_hash sha256 b) (client_bytes ch ∷ server_bytes sh ∷ []))
      ≡ current sha256 (
          update_all sha256
            (new_transcript_hash sha256 b')
            (client_bytes ch' ∷ server_bytes sh' ∷ []))
    → Collision sha256
      ⊎ ((b ≡ b') × (client_signed ch ≡ client_signed ch') × (server_signed sh ≡ server_signed sh'))
transcript_binds sha256 size b b' ch ch' sh sh' fc fc' fs fs' small_c small_s h =
    elim (transcript-inj sha256 size b b' (client_bytes ch ∷ server_bytes sh ∷ [])
      (client_bytes ch' ∷ server_bytes sh' ∷ []) refl h) [
        | inl c ↦ inl c
        | inr (bindings, same) ↦
            let client : client_bytes ch ≡ client_bytes ch' = cc in
            let server : server_bytes sh ≡ server_bytes sh' = cc in
            inr (
              bindings,
              client_bytes-inj ch ch' fc fc' small_c client,
              server_bytes-inj sh sh' fs fs' small_s server,
            )
      ]
