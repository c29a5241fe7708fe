-- ===== src/ReplayCache/Distinct.antt =====
-- The association list is a map: its keys are distinct, whatever calls are made.
use aafp_go.Base.{
  ℕ, ◌≡◌, ◌≢◌, refl, bytes_eq, bytes_eq_iff, Bytes, List, [], ◌∷◌, All, Option, none, some, arith,
  Bool-cases, inl, inr, take,
}
use aafp_go.Cbor.Encode.Unordered.{Distinct}
use aafp_go.ReplayCache.{
  Entry, Entries, RangeOrders, ReplayCache, make_key, is_expired, expired_keys, batch_size, lookup,
  delete, store, delete_all, lazy_evict, evict_lru, victim, make_room, write, fresh, check_found,
  check, check_and_insert_found, check_and_insert, insert_found, insert, unexpired, evict_expired,
  clear,
}
use aafp_go.ReplayCache.Lookups.{bytes_eq_refl, All-delete, All-store, All-unexpired}
use aafp_go.ReplayCache.Grows.{evict_lru-some, evict_lru-none, Option-cases}
use aafp_go.ReplayCache.Bound.{Call, checks, admits, inserts, sweeps, clears, step, run}

pub delete-Distinct : (k : Bytes) (es : Entries) → Distinct es → Distinct (delete k es)
unfolding delete
delete-Distinct k [] h = tt
delete-Distinct k ((j, e) ∷ es) (q, h) = elim (Bool-cases (bytes_eq j k)) [
  | inl gone ↦ rw gone (delete-Distinct k es h)
  | inr stays ↦ rw stays (All-delete (λ p. j ≢ p.0) k es q, delete-Distinct k es h)
]

delete_all-Distinct : (ks : List Bytes) (es : Entries) → Distinct es → Distinct (delete_all ks es)
delete_all-Distinct [] es h = h
delete_all-Distinct (k ∷ ks) es h = delete_all-Distinct ks (delete k es) (delete-Distinct k es h)

store-Distinct : (k : Bytes) (e : Entry) (es : Entries) → Distinct es → Distinct (store k e es)
unfolding store
store-Distinct k e [] h = (tt, tt)
store-Distinct k e ((j, d) ∷ es) (q, h) = elim (Bool-cases (bytes_eq j k)) [
  | inl here ↦ let same : j ≡ k = (bytes_eq_iff j k).0 here in rw here (rw (← same) q, h)
  | inr other ↦ rw other (
    All-store (λ p. j ≢ p.0) k e es (λ same. let self = (bytes_eq_iff j k).1 same in cc) q,
    store-Distinct k e es h,
  )
]

unexpired-Distinct : (now : ℕ) (es : Entries) → Distinct es → Distinct (unexpired now es)
unexpired-Distinct now [] h = tt
unexpired-Distinct now ((j, e) ∷ es) (q, h) = elim (Bool-cases (is_expired e now)) [
  | inl old ↦ rw old (unexpired-Distinct now es h)
  | inr live ↦ rw live (All-unexpired (λ p. j ≢ p.0) now es q, unexpired-Distinct now es h)
]

-- In such a map each entry is the one found under its key.
pub lookup-own : (es : Entries) → Distinct es → All (λ p. lookup p.0 es ≡ some p.1) es
lookup-own [] h = tt
lookup-own ((k, e) ∷ es) (q, h) = (own, others es q (lookup-own es h))
  where
    own : lookup k ((k, e) ∷ es) ≡ some e
    own = unfold lookup in rw (bytes_eq_refl k) refl

    others :
        (fs : Entries)
        → All (λ p. k ≢ p.0) fs
        → All (λ p. lookup p.0 es ≡ some p.1) fs
        → All (λ p. lookup p.0 ((k, e) ∷ es) ≡ some p.1) fs
    others [] d h = tt
    others ((j, f) ∷ fs) (q, d) (found, h) =
        (unfold lookup in ground (arith, bytes_eq_iff k j, q, found), others fs d h)

module _ (orders : RangeOrders) (now : ℕ) (c : ReplayCache) (h : Distinct c.entries) where
  pub lazy_evict-Distinct : Distinct (lazy_evict orders.lazy now c).entries
  unfolding lazy_evict
  lazy_evict-Distinct =
      let sweep = expired_keys now (take batch_size (orders.lazy c.entries)) in
      ground (arith, delete_all-Distinct sweep c.entries h)

  evict_lru-Distinct : Distinct (evict_lru orders now c).entries
  evict_lru-Distinct = elim (Option-cases (victim orders now c.entries)) [
    | inl gone ↦ rw (evict_lru-none orders now c gone) h
    | inr (k, chosen) ↦ rw (evict_lru-some orders now c k chosen) (delete-Distinct k c.entries h)
  ]

  make_room-Distinct : Distinct (make_room orders now c).entries
  unfolding make_room
  make_room-Distinct = ground (arith, evict_lru-Distinct)

module _ (orders : RangeOrders) (now : ℕ) (k : Bytes) (c : ReplayCache)
    (h : Distinct c.entries) where
  admit_new-Distinct : Distinct (write now k (make_room orders now c)).entries
  unfolding write
  admit_new-Distinct =
      store-Distinct k (fresh (make_room orders now c) now) (make_room orders now c).entries
        (make_room-Distinct orders now c h)

  check_found-Distinct : (o : Option Entry) → Distinct (check_found now k c o).0.entries
  unfolding check_found
  check_found-Distinct none = h
  check_found-Distinct (some e) = ground (
    arith,
    delete-Distinct k c.entries h,
    store-Distinct k (record e { last_accessed = now }) c.entries h,
  )

  insert_found-Distinct : (o : Option Entry) → Distinct (insert_found orders now k c o).entries
  unfolding insert_found write
  insert_found-Distinct none = admit_new-Distinct
  insert_found-Distinct (some e) = store-Distinct k (fresh c now) c.entries h

check_and_insert_found-Distinct :
    (orders : RangeOrders) (now : ℕ) (k : Bytes) (c : ReplayCache)
    → Distinct c.entries
    → (o : Option Entry) → Distinct (check_and_insert_found orders now k c o).0.entries
unfolding check_and_insert_found
check_and_insert_found-Distinct orders now k c h none = admit_new-Distinct orders now k c h
check_and_insert_found-Distinct orders now k c h (some e) =
    let c' : ReplayCache = record c { entries = delete k c.entries } in
    ground (arith, h, admit_new-Distinct orders now k c' (delete-Distinct k c.entries h))

pub step-Distinct :
    (c : ReplayCache) (call : Call) → Distinct c.entries → Distinct (step c call).entries
unfolding step check check_and_insert insert evict_expired clear lookup
step-Distinct c (checks orders now agent_id nonce) h =
    let k = make_key agent_id nonce in
    let swept = lazy_evict orders.lazy now c in
    ground (
      arith,
      check_found-Distinct orders now k swept (lazy_evict-Distinct orders now c h)
          (lookup k swept.entries),
    )
step-Distinct c (admits orders now agent_id nonce) h =
    let k = make_key agent_id nonce in
    let swept = lazy_evict orders.lazy now c in
    ground (
      arith,
      check_and_insert_found-Distinct orders now k swept (lazy_evict-Distinct orders now c h)
          (lookup k swept.entries),
    )
step-Distinct c (inserts orders now agent_id nonce) h =
    let k = make_key agent_id nonce in
    let swept = lazy_evict orders.lazy now c in
    ground (
      arith,
      insert_found-Distinct orders now k swept (lazy_evict-Distinct orders now c h)
          (lookup k swept.entries),
    )
step-Distinct c (sweeps now) h = unexpired-Distinct now c.entries h
step-Distinct c clears h = tt

-- Whatever calls are made of a cache whose keys are distinct, they stay distinct.
pub run-Distinct :
    (c : ReplayCache) (calls : List Call) → Distinct c.entries → Distinct (run c calls).entries
unfolding run
run-Distinct c [] h = h
run-Distinct c (call ∷ calls) h = run-Distinct (step c call) calls (step-Distinct c call h)
