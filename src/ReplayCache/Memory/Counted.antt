-- ===== src/ReplayCache/Memory/Counted.antt =====
-- What `EvictExpired` counts, against the memory.
use aafp_go.Base.{
  ℕ, ◌+◌, ◌≡◌, ◌≢◌, ◌↔◌, refl, sym, ap, ◌∙◌, true, false, not, Bytes, bytes_eq, bytes_eq_iff, [],
  ◌∷◌, length, All, Option, none, some, arith, Bool-cases, inl, inr,
}
use aafp_go.Cbor.Encode.Unordered.{Distinct}
use aafp_go.ReplayCache.{
  Entry, Entries, ReplayCache, is_expired, expired_keys, lookup, unexpired, evict_expired,
}
use aafp_go.ReplayCache.Orders.{In, All-In}
use aafp_go.ReplayCache.Distinct.{lookup-own}
use aafp_go.ReplayCache.Memory.{Memory, held, Agrees, Among, AllDifferent, CountsForgotten}

lookup-In : (k : Bytes) (e : Entry) (es : Entries) → lookup k es ≡ some e → In (k, e) es
unfolding lookup
lookup-In k e [] h = cc
lookup-In k e ((j, d) ∷ es) h = elim (Bool-cases (bytes_eq j k)) [
  | inl same ↦
      let equal : j ≡ k = (bytes_eq_iff j k).0 same in
      let entry : d ≡ e = ground (arith, same, h) in inl (λ i. (sym equal i, sym entry i))
  | inr other ↦ inr (lookup-In k e es (rw other at h))
]

module _ (now : ℕ) where
  length-expired_keys :
      (es : Entries) → length (expired_keys now es) + length (unexpired now es) ≡ length es
  length-expired_keys [] = refl
  length-expired_keys ((k, e) ∷ es) = ground (arith, length-expired_keys es)

  others-expired_keys :
      (k : Bytes) (es : Entries) → All (λ p. k ≢ p.0) es → All (λ j. k ≢ j) (expired_keys now es)
  others-expired_keys k [] h = tt
  others-expired_keys k ((j, e) ∷ es) (q, h) = elim (Bool-cases (is_expired e now)) [
    | inl old ↦ rw old (q, others-expired_keys k es h)
    | inr live ↦ rw live (others-expired_keys k es h)
  ]

  expired_keys-AllDifferent : (es : Entries) → Distinct es → AllDifferent (expired_keys now es)
  expired_keys-AllDifferent [] h = tt
  expired_keys-AllDifferent ((k, e) ∷ es) (q, h) = elim (Bool-cases (is_expired e now)) [
    | inl old ↦ rw old (others-expired_keys k es q, expired_keys-AllDifferent es h)
    | inr live ↦ rw live (expired_keys-AllDifferent es h)
  ]

  Among-expired_keys :
      (k : Bytes) (es : Entries)
      → Among k (expired_keys now es)
      → (e : Entry) × In (k, e) es × (is_expired e now ≡ true)
  Among-expired_keys k [] h = absurd h
  Among-expired_keys k ((j, e) ∷ es) h = elim (Bool-cases (is_expired e now)) [
    | inl old ↦ elim (rw old at h) [
      | inl here ↦ (e, inl (ap (λ i. (i, e)) here), old)
      | inr there ↦ let (d, further, gone) = Among-expired_keys k es there in (d, inr further, gone)
    ]
    | inr live ↦
        let (d, further, gone) = Among-expired_keys k es (rw live at h) in (d, inr further, gone)
  ]

  expired-Among :
      (k : Bytes) (e : Entry) (es : Entries)
      → In (k, e) es
      → is_expired e now ≡ true
      → Among k (expired_keys now es)
  expired-Among k e [] h old = h
  expired-Among k e ((j, d) ∷ es) (inl here) old =
      let gone : is_expired d now ≡ true =
        ap (λ (p : Bytes × Entry). is_expired p.1 now) (sym here) ∙ old in
      rw gone (inl (ap (λ p. p.0) here))
  expired-Among k e ((j, d) ∷ es) (inr there) old = elim (Bool-cases (is_expired d now)) [
    | inl gone ↦ rw gone (inr (expired-Among k e es there old))
    | inr live ↦ rw live (expired-Among k e es there old)
  ]

  -- In a map with distinct keys the expired ones are those held and not refused.
  expired_iff :
      (k : Bytes) (es : Entries)
      → Distinct es
      → Among k (expired_keys now es) ↔ ((lookup k es ≢ none) × (held now (lookup k es) ≡ false))
  expired_iff k es distinct = (
    λ h.
        let (e, there, old) = Among-expired_keys k es h in
        let found : lookup k es ≡ some e =
          All-In (λ p. lookup p.0 es ≡ some p.1) (k, e) es (lookup-own es distinct) there in
        rw found ((λ absent. cc), ap not old),
    λ (present, dead). from (lookup k es) refl present dead,
  )
    where
      from :
          (o : Option Entry)
          → lookup k es ≡ o
          → o ≢ none
          → held now o ≡ false
          → Among k (expired_keys now es)
      from none f present dead = absurd (present refl)
      from (some e) f present dead =
          expired-Among k e es (lookup-In k e es f) (ground (arith, dead))

pub evict_expired-CountsForgotten :
    (now : ℕ) (c : ReplayCache) (m : Memory)
    → Distinct c.entries
    → Agrees now c m
    → CountsForgotten now c m (evict_expired now c).1
unfolding evict_expired
evict_expired-CountsForgotten now c m distinct h = (
  expired_keys now c.entries,
  expired_keys-AllDifferent now c.entries distinct,
  omega (arith, length-expired_keys now c.entries),
  λ k.
      let same = h k now (omega arith) in
      let iff = expired_iff now k c.entries distinct in
      (
        λ there. ((iff.0 there).0, sym same ∙ (iff.0 there).1),
        λ (present, dead). iff.1 (present, same ∙ dead),
      ),
)
