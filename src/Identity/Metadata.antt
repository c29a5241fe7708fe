-- ===== src/Identity/Metadata.antt =====
-- The map behind a capability's metadata has no order, and the bytes that are signed have none of its.
use mathlib.Core.List.{Permᴰ}
use aafp_go.Base.{ℕ, ◌≡◌, sym, ap, ◌∙◌, Bytes, List, [], ◌∷◌}
use aafp_go.Base.Int.{pos}
use aafp_go.Cbor.{Value, array, text_string, byte_string, unsigned, str_map, to_str_entries}
use aafp_go.Cbor.Encode.{encode, sort_entries, str_key_less, write_str_map, write_int_map}
use aafp_go.Cbor.Encode.Unordered.{
  IsOrder, Distinct, str_key_less_trans, str_key_less_total, sort_entries-perm,
}
use aafp_go.Cbor.Decode.RoundTrip.Sorting.{map_values, sort_entries-map_values}
use aafp_go.Cbor.Decode.RoundTrip.Idempotent.{
  str_key_less_asym, write_str_map_sorted, encode_strs-to_str_entries,
}
use aafp_go.Identity.{Order, CapabilityDescriptor, AgentRecord, endpoint_items}

pub str_key_less-IsOrder : IsOrder str_key_less
str_key_less-IsOrder = record {
  asym = str_key_less_asym;
  trans = str_key_less_trans;
  total = str_key_less_total;
}

abbrev pub sorted_bytes : List (Bytes × Value) → Bytes
sorted_bytes es = write_str_map (map_values encode (sort_entries str_key_less es))

pub encode-metadata :
    (es : List (Bytes × Value)) → encode (str_map (to_str_entries es)) ≡ sorted_bytes es
unfolding encode
encode-metadata es =
    ap write_str_map (encode_strs-to_str_entries es)
    ∙ sym (write_str_map_sorted (map_values encode es))
    ∙ ap write_str_map (sort_entries-map_values encode str_key_less es)

-- A `range` loop visits each entry once.
abbrev pub VisitsOnce : Order → Type 0
VisitsOnce order = (es : List (Bytes × Value)) → Permᴰ (order es) es

module _ (orders : ℕ → Order) (once : (i : ℕ) → VisitsOnce (orders i)) where
  pub encode-ordered :
      (i : ℕ) (es : List (Bytes × Value))
      → Distinct es
      → encode (str_map (to_str_entries (orders i es))) ≡ sorted_bytes es
  encode-ordered i es d =
      encode-metadata (orders i es)
      ∙ ap (λ t. write_str_map (map_values encode t))
          (sort_entries-perm str_key_less str_key_less-IsOrder (once i es) d)

abbrev pub HasKeys : CapabilityDescriptor → Type 0
HasKeys c = Distinct c.metadata

-- The encoding of a record around that of its capabilities.
abbrev pub record_with : AgentRecord → Bytes → Bytes
record_with r b = write_int_map (
    (pos 1, encode (text_string r.record_type))
    ∷ (pos 2, encode (byte_string r.agent_id))
    ∷ (pos 3, encode (byte_string r.public_key))
    ∷ (pos 4, b)
    ∷ (pos 5, encode (array (endpoint_items r.endpoints)))
    ∷ (pos 6, encode (unsigned r.created_at))
    ∷ (pos 7, encode (unsigned r.expires_at))
    ∷ (pos 9, encode (unsigned r.key_algorithm))
    ∷ (pos 10, encode (unsigned r.record_version))
    ∷ [])
