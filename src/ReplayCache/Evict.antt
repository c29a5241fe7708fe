-- ===== src/ReplayCache/Evict.antt =====
-- `evictLRU`: which entry it deletes, and that it deletes no other.
use aafp_go.Base.{
  ℕ, ◌≤◌, ◌<◌, ◌≡◌, ◌⊎◌, ap, ◌∙◌, if◌then◌else◌, Bytes, bytes_eq, length, All, none, inl, inr,
}
use aafp_go.ReplayCache.{Entry, Entries, RangeOrders, ReplayCache, lookup, victim, evict_lru}
use aafp_go.ReplayCache.Lookups.{lookup-delete}
use aafp_go.ReplayCache.Orders.{Fair, In, victim_lem, victim_exists}
use aafp_go.ReplayCache.Grows.{evict_lru-some, Option-cases}

-- The entry is expired, or none is and it was used no later than any.
abbrev pub IsDue : ℕ → Entries → Entry → Type 0
IsDue now es e =
    (e.expires_at ≤ now)
    ⊎ (All (λ p. now < p.1.expires_at) es × All (λ p. e.last_accessed ≤ p.1.last_accessed) es)

-- The cache `d` is the cache `c` without the entry under the key.
pub record Without (key : Bytes) (c d : ReplayCache) : Type 0 where
  pub found :
      (q : Bytes) → lookup q d.entries ≡ (if bytes_eq key q then none else lookup q c.entries)
  pub same_max : d.max_entries ≡ c.max_entries
  pub same_retention : d.retention ≡ c.retention

-- From a cache that is not empty `evictLRU` deletes the entry under one key, which is expired, or where
-- none is expired was used no later than any, and leaves all else as it was. The loops visit each
-- entry once, in any order.
pub evict_lru_lem :
    (orders : RangeOrders) (now : ℕ) (c : ReplayCache)
    → Fair orders
    → 1 ≤ length c.entries
    → (k : Bytes) × (e : Entry) × In (k, e) c.entries
      × IsDue now c.entries e
      × Without k c (evict_lru orders now c)
evict_lru_lem orders now c fair some_entry = elim (Option-cases (victim orders now c.entries)) [
  | inl empty ↦ absurd (victim_exists orders now c.entries fair some_entry empty)
  | inr (k, chosen) ↦
      let (e, there, due) = victim_lem orders now c.entries k fair chosen in
      let gone = evict_lru-some orders now c k chosen in
      (
        k,
        e,
        there,
        due,
        record {
          found = λ q. ap (λ d. lookup q d.entries) gone ∙ lookup-delete q k c.entries;
          same_max = ap (λ d. d.max_entries) gone;
          same_retention = ap (λ d. d.retention) gone;
        },
      )
]
