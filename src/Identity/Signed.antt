-- ===== src/Identity/Signed.antt =====
-- The bytes that the receiver of a record checks the signature over are those signed.
use aafp_go.Base.{
  ℕ, suc, ◌+◌, ◌≡◌, ◌==◌, leb, bytes_eq, refl, sym, ap, ◌∙◌, Bool, Bytes, List, [], ◌∷◌, ◌++◌, All,
}
use aafp_go.Base.Int.{pos}
use aafp_go.Cbor.{mt_array, Value, array, text_string}
use aafp_go.Cbor.Head.{encode_head}
use aafp_go.Cbor.Encode.{
  encode, encode_items, count_items, sort_entries, str_key_less, write_str_map, write_int_map,
}
use aafp_go.Cbor.Decode.RoundTrip.Shape.{canon}
use aafp_go.Cbor.Decode.RoundTrip.Sorting.{map_values, sort_entries-map_values}
use aafp_go.Cbor.Decode.RoundTrip.Idempotent.{
  encode-canon, str_key_less_asym, sort_entries_idempotent,
}
use aafp_go.Identity.{
  Order, CapabilityDescriptor, capability_to_cbor, capability_items, AgentRecord,
  to_cbor_without_sig, signature_input, record_type_v1, key_alg_mldsa65, verify, verify_agent_id,
}
use aafp_go.Identity.Verified.{outcome}
use aafp_go.Identity.Metadata.{VisitsOnce, HasKeys, sorted_bytes, encode-ordered, record_with}
use aafp_go.Identity.Sent.{canonical_capability, sorted-Distinct}

abbrev pub canonical_capabilities : List CapabilityDescriptor → List CapabilityDescriptor
canonical_capabilities [] = []
canonical_capabilities (c ∷ cs) = canonical_capability c ∷ canonical_capabilities cs

-- The record with each capability's metadata in the order of their encoding.
abbrev pub canonical_record : AgentRecord → AgentRecord
canonical_record r = record r { capabilities = canonical_capabilities r.capabilities }

encode-canon_values :
    (es : List (Bytes × Value)) → map_values encode (map_values canon es) ≡ map_values encode es
encode-canon_values [] = refl
encode-canon_values ((k, v) ∷ es) = rw (encode-canon v, encode-canon_values es) refl

encode_canonical :
    (es : List (Bytes × Value))
    → sorted_bytes (map_values canon (sort_entries str_key_less es)) ≡ sorted_bytes es
encode_canonical es =
    let sorted = sort_entries str_key_less es in
    ap (λ t. write_str_map (map_values encode t))
      (sort_entries-map_values canon str_key_less sorted)
    ∙ ap write_str_map (encode-canon_values (sort_entries str_key_less sorted))
    ∙ ap (λ t. write_str_map (map_values encode t))
        (sort_entries_idempotent str_key_less str_key_less_asym es)

module _ (orders orders' : ℕ → Order) (once : (i : ℕ) → VisitsOnce (orders i))
    (once' : (i : ℕ) → VisitsOnce (orders' i)) where
  encode-capability_again :
      (i : ℕ) (c : CapabilityDescriptor)
      → HasKeys c
      → encode (capability_to_cbor (orders' i) (canonical_capability c))
        ≡ encode (capability_to_cbor (orders i) c)
  unfolding encode capability_to_cbor
  encode-capability_again i c d =
      let again =
        encode-ordered orders' once' i (canonical_capability c).metadata
          (sorted-Distinct (orders i) (once i) c d) in
      let first = encode-ordered orders once i c.metadata d in
      ap (λ b. write_int_map ((pos 1, encode (text_string c.name)) ∷ (pos 2, b) ∷ []))
        (again ∙ encode_canonical c.metadata ∙ sym first)

  encode-capabilities_again :
      (i : ℕ) (cs : List CapabilityDescriptor)
      → All HasKeys cs
      → encode_items (capability_items orders' i (canonical_capabilities cs))
        ≡ encode_items (capability_items orders i cs)
  unfolding encode
  encode-capabilities_again i [] h = refl
  encode-capabilities_again i (c ∷ cs) (d, h) = rw (encode-capability_again i c d) (
      ap (λ t. encode (capability_to_cbor (orders i) c) ++ t)
        (encode-capabilities_again (i + 1) cs h))

  count_again :
      (i : ℕ) (cs : List CapabilityDescriptor)
      → count_items (capability_items orders' i (canonical_capabilities cs))
        ≡ count_items (capability_items orders i cs)
  count_again i [] = refl
  count_again i (c ∷ cs) = ap suc (count_again (i + 1) cs)

  encode_array_again :
      (cs : List CapabilityDescriptor)
      → All HasKeys cs
      → encode (array (capability_items orders' 0 (canonical_capabilities cs)))
        ≡ encode (array (capability_items orders 0 cs))
  unfolding encode
  encode_array_again cs h =
      ap
        (λ n.
          encode_head mt_array n
          ++ encode_items (capability_items orders' 0 (canonical_capabilities cs)))
        (count_again 0 cs)
      ∙ ap (λ t. encode_head mt_array (count_items (capability_items orders 0 cs)) ++ t)
          (encode-capabilities_again 0 cs h)

  encode_record_again :
      (r : AgentRecord)
      → All HasKeys r.capabilities
      → encode (to_cbor_without_sig orders' (canonical_record r))
        ≡ encode (to_cbor_without_sig orders r)
  unfolding encode to_cbor_without_sig
  encode_record_again r h = ap (record_with r) (encode_array_again r.capabilities h)

  signature_input_again :
      (r : AgentRecord)
      → All HasKeys r.capabilities
      → signature_input orders' (canonical_record r) ≡ signature_input orders r
  unfolding signature_input
  signature_input_again r h = ap (λ b. record_type_v1 ++ b) (encode_record_again r h)

  pub verify_again :
      (sha256 : Bytes → Bytes) (r : AgentRecord) (now : ℕ)
      (verify_fn : Bytes → Bytes → Bytes → Bool)
      → All HasKeys r.capabilities
      → verify sha256 orders' (canonical_record r) now verify_fn
        ≡ verify sha256 orders r now verify_fn
  unfolding verify
  verify_again sha256 r now verify_fn h =
      ap
        (λ m.
          outcome (verify_agent_id sha256 r.agent_id r.public_key)
            (bytes_eq r.record_type record_type_v1) (r.key_algorithm == key_alg_mldsa65)
            (verify_fn r.public_key m r.signature) (leb r.expires_at now))
        (signature_input_again r h)
