-- ===== src/ReplayCache/Memory/Dead.antt =====
-- Deleting what has expired takes nothing from what the cache holds.
use aafp_go.Base.{
  ℕ, ◌≤◌, ◌≡◌, refl, sym, ◌∙◌, false, Bytes, bytes_eq, bytes_eq_iff, List, [], ◌∷◌, take, All, some,
  arith, Bool-cases, inl, inr,
}
use aafp_go.Cbor.Encode.Unordered.{Distinct}
use aafp_go.ReplayCache.{
  Entries, Order, ReplayCache, is_expired, expired_keys, batch_size, lookup, delete, delete_all,
  lazy_evict,
}
use aafp_go.ReplayCache.Lookups.{lookup-delete}
use aafp_go.ReplayCache.Orders.{VisitsOnce, All-perm, All-take}
use aafp_go.ReplayCache.Distinct.{lookup-own}
use aafp_go.ReplayCache.Memory.{held}

module _ (now : ℕ) where
  -- A key without a live entry may be deleted.
  pub delete_dead :
      (q k : Bytes) (es : Entries)
      → held now (lookup k es) ≡ false
      → held now (lookup q (delete k es)) ≡ held now (lookup q es)
  delete_dead q k es dead = elim (Bool-cases (bytes_eq k q)) [
    | inl same ↦
        let equal : k ≡ q = (bytes_eq_iff k q).0 same in
        rw (lookup-delete q k es) (rw same (sym (rw equal at dead)))
    | inr other ↦ rw (lookup-delete q k es) (rw other refl)
  ]

  delete_all_dead :
      (q : Bytes) (ks : List Bytes) (es : Entries)
      → All (λ k. held now (lookup k es) ≡ false) ks
      → held now (lookup q (delete_all ks es)) ≡ held now (lookup q es)
  delete_all_dead q [] es dead = refl
  delete_all_dead q (k ∷ ks) es (d, dead) =
      delete_all_dead q ks (delete k es) (still ks dead) ∙ delete_dead q k es d
    where
      still :
          (js : List Bytes)
          → All (λ j. held now (lookup j es) ≡ false) js
          → All (λ j. held now (lookup j (delete k es)) ≡ false) js
      still [] h = tt
      still (j ∷ js) (h, hs) = (delete_dead j k es d ∙ h, still js hs)

  -- What had expired at an earlier time is dead.
  expired_dead :
      (before : ℕ) (es fs : Entries)
      → before ≤ now
      → All (λ p. lookup p.0 es ≡ some p.1) fs
      → All (λ k. held now (lookup k es) ≡ false) (expired_keys before fs)
  expired_dead before es [] late h = tt
  expired_dead before es ((k, e) ∷ fs) late (found, h) = elim (Bool-cases (is_expired e before)) [
    | inl old ↦ rw old (rw found (ground (arith, old, late)), expired_dead before es fs late h)
    | inr live ↦ rw live (expired_dead before es fs late h)
  ]

  pub lazy_evict-held :
      (order : Order) (before : ℕ) (c : ReplayCache) (q : Bytes)
      → VisitsOnce order
      → Distinct c.entries
      → before ≤ now
      → held now (lookup q (lazy_evict order before c).entries) ≡ held now (lookup q c.entries)
  unfolding lazy_evict
  lazy_evict-held order before c q once distinct late =
      let own =
        All-perm (λ p. lookup p.0 c.entries ≡ some p.1) (once c.entries)
          (lookup-own c.entries distinct) in
      let batch =
        All-take (λ p. lookup p.0 c.entries ≡ some p.1) batch_size (order c.entries) own in
      let dead = expired_dead before c.entries (take batch_size (order c.entries)) late batch in
      let same =
        delete_all_dead q (expired_keys before (take batch_size (order c.entries))) c.entries
          dead in
      ground (arith, same)
