-- ===== src/Identity/Sent.antt =====
-- A capability over the wire: its metadata come back as the same map.
use aafp_go.Base.{
  ◌≡◌, ◌≢◌, refl, sym, ap, ◌∙◌, Bool-cases, inl, inr, Bytes, bytes_eq, bytes_eq_iff, List, [], ◌∷◌,
  ◌++◌, All, append_assoc, append-nil, ok, some,
}
use aafp_go.Cbor.{Value, to_str_entries, int_map_get}
use aafp_go.Cbor.Head.{encode_head}
use aafp_go.Cbor.Encode.{sort_entries, str_key_less, int_key_less}
use aafp_go.Cbor.Encode.Unordered.{Distinct, sort_entries-perm, perm-Distinct}
use aafp_go.Cbor.Decode.RoundTrip.Shape.{canon, canon_strs, str_map_of}
use aafp_go.Cbor.Decode.RoundTrip.Sorting.{
  map_values, sort_entries-map_values, sort_entries-permutes,
}
use aafp_go.Identity.{
  Order, CapabilityDescriptor, capability_to_cbor, capability_from_cbor, set, set_all,
  metadata_from_cbor,
}
use aafp_go.Identity.Metadata.{VisitsOnce, HasKeys, str_key_less-IsOrder}

canon_strs-to_str_entries :
    (es : List (Bytes × Value)) → canon_strs (to_str_entries es) ≡ map_values canon es
unfolding canon
canon_strs-to_str_entries [] = refl
canon_strs-to_str_entries ((k, v) ∷ es) = ap (λ t. (k, canon v) ∷ t) (canon_strs-to_str_entries es)

Other-map_values :
    (k : Bytes) (es : List (Bytes × Value))
    → All (λ p. k ≢ p.0) es
    → All (λ p. k ≢ p.0) (map_values canon es)
Other-map_values k [] h = tt
Other-map_values k ((j, v) ∷ es) (p, h) = (p, Other-map_values k es h)

Distinct-map_values : (es : List (Bytes × Value)) → Distinct es → Distinct (map_values canon es)
Distinct-map_values [] h = tt
Distinct-map_values ((k, v) ∷ es) (o, h) = (Other-map_values k es o, Distinct-map_values es h)

set_new :
    (k : Bytes) (v : Value) (es : List (Bytes × Value))
    → All (λ p. p.0 ≢ k) es
    → set k v es ≡ es ++ ((k, v) ∷ [])
set_new k v [] h = refl
set_new k v ((j, w) ∷ es) (p, h) = elim (Bool-cases (bytes_eq j k)) [
  | inl same ↦ absurd (p ((bytes_eq_iff j k).0 same))
  | inr other ↦ rw other (ap (λ t. (j, w) ∷ t) (set_new k v es h))
]

-- Entries put into a map, none of whose keys it has.
abbrev Apart : List (Bytes × Value) → List (Bytes × Value) → Type 0
Apart es [] = Unit
Apart es ((k, v) ∷ xs) = All (λ p. p.0 ≢ k) es × Apart es xs

All-snoc {ℓ κ} :
    {A : Type ℓ} (P : A → Type κ) (xs : List A) (x : A) → All P xs → P x → All P (xs ++ (x ∷ []))
All-snoc P [] x h p = (p, tt)
All-snoc P (y ∷ xs) x (q, h) p = (q, All-snoc P xs x h p)

Apart-snoc :
    (es xs : List (Bytes × Value)) (k : Bytes) (v : Value)
    → Apart es xs
    → All (λ p. k ≢ p.0) xs
    → Apart (es ++ ((k, v) ∷ [])) xs
Apart-snoc es [] k v h o = tt
Apart-snoc es ((j, w) ∷ xs) k v (p, h) (q, o) =
    (All-snoc (λ x. x.0 ≢ j) es (k, v) p q, Apart-snoc es xs k v h o)

set_all_new :
    (xs es : List (Bytes × Value))
    → Apart es xs
    → Distinct xs
    → set_all (to_str_entries xs) es ≡ es ++ xs
set_all_new [] es h d = sym (append-nil es)
set_all_new ((k, v) ∷ xs) es (p, h) (o, d) =
    ap (set_all (to_str_entries xs)) (set_new k v es p)
    ∙ set_all_new xs (es ++ ((k, v) ∷ [])) (Apart-snoc es xs k v h o) d
    ∙ append_assoc es ((k, v) ∷ []) xs

Apart-nil : (xs : List (Bytes × Value)) → Apart [] xs
Apart-nil [] = tt
Apart-nil ((k, v) ∷ xs) = (tt, Apart-nil xs)

metadata_from_cbor-str_map_of :
    (xs : List (Bytes × Value)) → Distinct xs → metadata_from_cbor (some (str_map_of xs)) ≡ ok xs
metadata_from_cbor-str_map_of [] d = refl
metadata_from_cbor-str_map_of (x ∷ xs) d = ap ok (set_all_new (x ∷ xs) [] (Apart-nil (x ∷ xs)) d)

-- The capability with its metadata in the order of their encoding.
abbrev pub canonical_capability : CapabilityDescriptor → CapabilityDescriptor
canonical_capability c = record c {
  metadata = map_values canon (sort_entries str_key_less c.metadata);
}

module _ (order : Order) (once : VisitsOnce order) (c : CapabilityDescriptor) (d : HasKeys c) where
  sent_metadata :
      sort_entries str_key_less (canon_strs (to_str_entries (order c.metadata)))
      ≡ map_values canon (sort_entries str_key_less c.metadata)
  sent_metadata =
      ap (sort_entries str_key_less) (canon_strs-to_str_entries (order c.metadata))
      ∙ sort_entries-map_values canon str_key_less (order c.metadata)
      ∙ ap (map_values canon)
          (sort_entries-perm str_key_less str_key_less-IsOrder (once c.metadata) d)

  pub sorted-Distinct : Distinct (map_values canon (sort_entries str_key_less c.metadata))
  sorted-Distinct = Distinct-map_values (sort_entries str_key_less c.metadata) (
      perm-Distinct str_key_less str_key_less-IsOrder
        (sort_entries-permutes str_key_less c.metadata) d)

  pub capability-sent :
      capability_from_cbor (canon (capability_to_cbor order c)) ≡ ok (canonical_capability c)
  unfolding canon capability_from_cbor capability_to_cbor int_map_get int_key_less encode_head
  capability-sent = rw (sent_metadata, metadata_from_cbor-str_map_of _ sorted-Distinct) refl
