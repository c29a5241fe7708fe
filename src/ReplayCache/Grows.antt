-- ===== src/ReplayCache/Grows.antt =====
-- What each operation of the replay cache may do to its size.
use aafp_go.Base.{
  ℕ, ◌+◌, ◌≤◌, ◌<◌, ◌≡◌, ◌≢◌, refl, ◌∙◌, not, leb, ◌==◌, Bytes, [], ◌∷◌, length, take, Option, none,
  some, arith, Bool-cases, inl, inr, ◌⊎◌,
}
use aafp_go.ReplayCache.{
  Entry, Entries, Order, RangeOrders, ReplayCache, is_expired, expired_keys, batch_size, lookup,
  delete, make_key, lazy_evict, check_found, check, victim, evict_lru, make_room, write, fresh,
  check_and_insert_found, check_and_insert, insert_found, insert, unexpired, nonce_size,
}
use aafp_go.ReplayCache.Lookups.{
  length-delete-le, length-delete-lt, length-store-le, length-delete_all-le, length-store_found,
}
use aafp_go.ReplayCache.Orders.{Fair, In-lookup, victim_lem, victim_exists}

-- What a call may do to the cache's size: at most one more entry, and never past the maximum.
pub record Grows (c d : ReplayCache) : Type 0 where
  pub by_one : length d.entries ≤ length c.entries + 1
  pub within :
      1 ≤ c.max_entries → length c.entries ≤ c.max_entries → length d.entries ≤ c.max_entries
  pub same_max : d.max_entries ≡ c.max_entries
  pub same_retention : d.retention ≡ c.retention

pub length-unexpired-le : (now : ℕ) (es : Entries) → length (unexpired now es) ≤ length es
length-unexpired-le now [] = omega arith
length-unexpired-le now ((k, e) ∷ es) = ground (arith, length-unexpired-le now es)

pub lazy_evict-Shrinks :
    (order : Order) (now : ℕ) (c : ReplayCache)
    → (length (lazy_evict order now c).entries ≤ length c.entries)
      × ((lazy_evict order now c).max_entries ≡ c.max_entries)
      × ((lazy_evict order now c).retention ≡ c.retention)
unfolding lazy_evict
lazy_evict-Shrinks order now c =
    ground
      (arith, length-delete_all-le (expired_keys now (take batch_size (order c.entries))) c.entries)

Grows-Shrinks :
    {c d e : ReplayCache}
    → Grows c d
    → length c.entries ≤ length e.entries
    → c.max_entries ≡ e.max_entries
    → c.retention ≡ e.retention
    → Grows e d
Grows-Shrinks {c} {d} {e} g less max ret = record {
  by_one = let one = g.by_one in omega arith;
  within = λ pos small. let w = g.within (omega arith) (omega arith) in omega arith;
  same_max = g.same_max ∙ max;
  same_retention = g.same_retention ∙ ret;
}

Grows-self : (c : ReplayCache) → Grows c c
Grows-self c = record {
  by_one = omega arith;
  within = λ pos small. small;
  same_max = refl;
  same_retention = refl;
}

victim-lookup :
    (orders : RangeOrders) (now : ℕ) (es : Entries) (k : Bytes)
    → Fair orders
    → victim orders now es ≡ some k
    → lookup k es ≢ none
victim-lookup orders now es k fair h =
    let (e, there, _) = victim_lem orders now es k fair h in In-lookup k e es there

pub Option-cases : (o : Option Bytes) → (o ≡ none) ⊎ ((k : Bytes) × (o ≡ some k))
Option-cases none = inl refl
Option-cases (some k) = inr (k, refl)

module _ (orders : RangeOrders) (now : ℕ) where
  pub evict_lru-none :
      (c : ReplayCache) → victim orders now c.entries ≡ none → evict_lru orders now c ≡ c
  unfolding evict_lru
  evict_lru-none c h = rw (h, evict_lru)

  pub evict_lru-some :
      (c : ReplayCache) (k : Bytes)
      → victim orders now c.entries ≡ some k
      → evict_lru orders now c ≡ record c { entries = delete k c.entries }
  unfolding evict_lru
  evict_lru-some c k h = rw (h, evict_lru)

module _ (orders : RangeOrders) (now : ℕ) (fair : Fair orders) where
  evict_lru-Drops :
      (c : ReplayCache) (o : Option Bytes)
      → victim orders now c.entries ≡ o
      → (length (evict_lru orders now c).entries ≤ length c.entries)
        × (1 ≤ length c.entries → length (evict_lru orders now c).entries < length c.entries)
        × ((evict_lru orders now c).max_entries ≡ c.max_entries)
        × ((evict_lru orders now c).retention ≡ c.retention)
  evict_lru-Drops c none h =
      rw (evict_lru-none orders now c h)
        (omega arith, λ full. absurd (victim_exists orders now c.entries fair full h), refl, refl)
  evict_lru-Drops c (some k) h =
      let fewer = length-delete-lt k c.entries (victim-lookup orders now c.entries k fair h) in
      rw (evict_lru-some orders now c k h) (omega arith, λ full. fewer, refl, refl)

  write-Grows :
      (k : Bytes) (c : ReplayCache)
      → (length (write now k c).entries ≤ length c.entries + 1)
        × (lookup k c.entries ≢ none → length (write now k c).entries ≡ length c.entries)
  unfolding write
  write-Grows k c =
      (length-store-le k (fresh c now) c.entries, length-store_found k (fresh c now) c.entries)

  write_over-Grows :
      (k : Bytes) (c : ReplayCache)
      → length (write now k c).entries ≡ length c.entries
      → Grows c (write now k c)
  unfolding write
  write_over-Grows k c equal = record {
    by_one = omega arith;
    within = λ pos small. omega arith;
    same_max = refl;
    same_retention = refl;
  }

  -- A new entry, after `make_room`.
  make_room-Grows : (k : Bytes) (c : ReplayCache) → Grows c (write now k (make_room orders now c))
  unfolding make_room write
  make_room-Grows k c =
      let (less, drops, max, ret) = evict_lru-Drops c (victim orders now c.entries) refl in
      let more = length-store-le k (fresh c now) c.entries in
      let more' =
        length-store-le k (fresh (evict_lru orders now c) now) (evict_lru orders now c).entries in
      elim (Bool-cases (leb c.max_entries (length c.entries))) [
        | inl full ↦ rw full (record {
          by_one = omega arith;
          within = λ pos small. let fewer = drops (ground arith) in omega arith;
          same_max = max;
          same_retention = ret;
        })
        | inr space ↦ rw space (record {
          by_one = more;
          within =
              λ pos small. let lt : length c.entries < c.max_entries = ground arith in omega arith;
          same_max = refl;
          same_retention = refl;
        })
      ]

module _ (orders : RangeOrders) (now : ℕ) (fair : Fair orders) (k : Bytes) (c : ReplayCache) where
  check_found-Grows :
      (o : Option Entry) → lookup k c.entries ≡ o → Grows c (check_found now k c o).0
  unfolding check_found
  check_found-Grows none h = Grows-self c
  check_found-Grows (some e) h =
      let less = length-delete-le k c.entries in
      let same = length-store_found k (record e { last_accessed = now }) c.entries in
      elim (Bool-cases (is_expired e now)) [
        | inl old ↦ rw old (record {
          by_one = omega arith;
          within = λ pos small. omega arith;
          same_max = refl;
          same_retention = refl;
        })
        | inr live ↦
            let equal = same (λ none_there. cc) in
            rw live (record {
              by_one = omega arith;
              within = λ pos small. omega arith;
              same_max = refl;
              same_retention = refl;
            })
      ]

  check_and_insert_found-Grows :
      (o : Option Entry)
      → lookup k c.entries ≡ o
      → Grows c (check_and_insert_found orders now k c o).0
  unfolding check_and_insert_found
  check_and_insert_found-Grows none h = make_room-Grows orders now fair k c
  check_and_insert_found-Grows (some e) h = elim (Bool-cases (is_expired e now)) [
    | inl old ↦ rw old (
        Grows-Shrinks
          (make_room-Grows orders now fair k (record c { entries = delete k c.entries }))
          (length-delete-le k c.entries) refl refl)
    | inr live ↦ rw live (Grows-self c)
  ]

  insert_found-Grows :
      (o : Option Entry) → lookup k c.entries ≡ o → Grows c (insert_found orders now k c o)
  unfolding insert_found
  insert_found-Grows none h = make_room-Grows orders now fair k c
  insert_found-Grows (some e) h =
      write_over-Grows orders now fair k c ((write-Grows orders now fair k c).1 (λ none_there. cc))

module _ (orders : RangeOrders) (now : ℕ) (fair : Fair orders) (c : ReplayCache) where
  -- From the cache after `lazyEvict` back to the one before.
  swept-Grows : {d : ReplayCache} → Grows (lazy_evict orders.lazy now c) d → Grows c d
  swept-Grows g =
      let (less, max, ret) = lazy_evict-Shrinks orders.lazy now c in Grows-Shrinks g less max ret

  pub check-Grows : (agent_id nonce : Bytes) → Grows c (check orders now c agent_id nonce).0
  unfolding check
  check-Grows agent_id nonce = elim (Bool-cases (not (length nonce == nonce_size))) [
    | inl bad ↦ rw bad (Grows-self c)
    | inr good ↦ rw good (
        swept-Grows (
          check_found-Grows orders now fair (make_key agent_id nonce) (lazy_evict orders.lazy now c)
            _ refl))
  ]

  pub check_and_insert-Grows :
      (agent_id nonce : Bytes) → Grows c (check_and_insert orders now c agent_id nonce).0
  unfolding check_and_insert
  check_and_insert-Grows agent_id nonce = elim (Bool-cases (not (length nonce == nonce_size))) [
    | inl bad ↦ rw bad (Grows-self c)
    | inr good ↦ rw good (
        swept-Grows (
          check_and_insert_found-Grows orders now fair (make_key agent_id nonce)
            (lazy_evict orders.lazy now c) _ refl))
  ]

  pub insert-Grows : (agent_id nonce : Bytes) → Grows c (insert orders now c agent_id nonce)
  unfolding insert
  insert-Grows agent_id nonce = elim (Bool-cases (not (length nonce == nonce_size))) [
    | inl bad ↦ rw bad (Grows-self c)
    | inr good ↦ rw good (
        swept-Grows (
          insert_found-Grows orders now fair (make_key agent_id nonce)
            (lazy_evict orders.lazy now c) _ refl))
  ]
