-- ===== src/ReplayCache/Replay.antt =====
-- A nonce that was let in is refused when it comes again.
use aafp_go.Base.{
  ℕ, ◌+◌, ◌≤◌, ◌<◌, ◌≡◌, refl, ◌∙◌, not, leb, ◌==◌, Bytes, bytes_eq, List, [], ◌∷◌, length, All,
  Option, none, some, arith, subst, Bool-cases, inl, inr,
}
use aafp_go.ReplayCache.{
  Entry, Entries, RangeOrders, ReplayCache, nonce_reuse, is_expired, lookup, delete, make_key,
  lazy_evict, victim, evict_lru, make_room, write, fresh, check_and_insert_found, check_and_insert,
  nonce_size,
}
use aafp_go.ReplayCache.Lookups.{bytes_eq_refl, lookup-delete, lookup-store, All-delete, All-store}
use aafp_go.ReplayCache.Orders.{Fair}
use aafp_go.ReplayCache.Held.{
  Later, Holds, Holds-lookup, lazy_evict-Holds, check-Holds, check_and_insert-Holds, insert-Holds,
  unexpired-Holds,
}
use aafp_go.ReplayCache.Bound.{
  Call, checks, admits, inserts, sweeps, clears, step, run, IsFair, step-Grows,
}
use aafp_go.ReplayCache.Grows.{Grows, evict_lru-some, evict_lru-none, Option-cases}

-- A call from `since` on and before `until`, that does not clear the cache.
abbrev pub Timely : ℕ → ℕ → Call → Type 0
Timely since until (checks orders now agent_id nonce) = (since ≤ now) × (now < until)
Timely since until (admits orders now agent_id nonce) = (since ≤ now) × (now < until)
Timely since until (inserts orders now agent_id nonce) = (since ≤ now) × (now < until)
Timely since until (sweeps now) = (since ≤ now) × (now < until)
Timely since until clears = ⊥

module _ (key : Bytes) (since until : ℕ) where
  step-Holds :
      (c : ReplayCache) (call : Call)
      → until ≤ since + c.retention
      → length c.entries < c.max_entries
      → IsFair call
      → Timely since until call
      → Holds key until c.entries
      → Holds key until (step c call).entries
  unfolding step
  step-Holds c (checks orders now agent_id nonce) ret room fair (late, early) h =
      check-Holds key until orders now early c agent_id nonce fair h
  step-Holds c (admits orders now agent_id nonce) ret room fair (late, early) h =
      check_and_insert-Holds key until orders now early c agent_id nonce fair (omega arith) room h
  step-Holds c (inserts orders now agent_id nonce) ret room fair (late, early) h =
      insert-Holds key until orders now early c agent_id nonce fair (omega arith) room h
  step-Holds c (sweeps now) ret room fair (late, early) h =
      unexpired-Holds key until now c.entries early h
  step-Holds c clears ret room fair t h = absurd t

  run-Holds :
      (c : ReplayCache) (calls : List Call)
      → until ≤ since + c.retention
      → length c.entries + length calls ≤ c.max_entries
      → All IsFair calls
      → All (Timely since until) calls
      → Holds key until c.entries
      → Holds key until (run c calls).entries
  unfolding run
  run-Holds c [] ret room fair t h = h
  run-Holds c (call ∷ calls) ret room (f, fair) (t, ts) h =
      let g = step-Grows c call f in
      let one = g.by_one in
      let max = g.same_max in
      let keep = g.same_retention in
      run-Holds (step c call) calls (omega arith) (omega arith) fair ts
        (step-Holds c call ret (omega arith) f t h)

-- No entry under a key that is not found.
none-Later :
    (key : Bytes) (until : ℕ) (es : Entries) → lookup key es ≡ none → All (Later key until) es
unfolding lookup
none-Later key until [] h = tt
none-Later key until ((k, e) ∷ es) h = elim (Bool-cases (bytes_eq k key)) [
  | inl here ↦ absurd (let found : ◌≡◌ {A = Option Entry} (some e) none = rw here at h in cc)
  | inr other ↦ (λ same. cc, none-Later key until es (rw other at h))
]

module _ (orders : RangeOrders) (now : ℕ) where
  evict_lru-Later :
      (key : Bytes) (c : ReplayCache) (until : ℕ)
      → All (Later key until) c.entries
      → All (Later key until) (evict_lru orders now c).entries
        × ((evict_lru orders now c).retention ≡ c.retention)
  evict_lru-Later key c until h = elim (Option-cases (victim orders now c.entries)) [
    | inl absent ↦ rw (evict_lru-none orders now c absent) (h, refl)
    | inr (k, chosen) ↦
        rw (evict_lru-some orders now c k chosen) (All-delete (Later key until) k c.entries h, refl)
  ]

  make_room-Later :
      (key : Bytes) (c : ReplayCache) (until : ℕ)
      → All (Later key until) c.entries
      → All (Later key until) (make_room orders now c).entries
        × ((make_room orders now c).retention ≡ c.retention)
  unfolding make_room
  make_room-Later key c until h = elim (Bool-cases (leb c.max_entries (length c.entries))) [
    | inl full ↦ rw full (evict_lru-Later key c until h)
    | inr space ↦ rw space (h, refl)
  ]

  module _ (key : Bytes) where
    written-Holds :
        (c : ReplayCache)
        → lookup key c.entries ≡ none
        → Holds key (now + c.retention) (write now key (make_room orders now c)).entries
    unfolding write
    written-Holds c h =
        let (later, ret) =
          make_room-Later key c (now + c.retention)
            (none-Later key (now + c.retention) c.entries h) in
        let d = make_room orders now c in
        record {
          later =
              All-store (Later key (now + c.retention)) key (fresh d now) d.entries
                (λ same. omega arith) later;
          present = λ gone.
              let found = lookup-store key key (fresh d now) d.entries in
              let self = bytes_eq_refl key in ground arith;
        }

    -- If the nonce is let in, it is held for the retention time.
    found-Holds :
        (c : ReplayCache) (o : Option Entry)
        → lookup key c.entries ≡ o
        → (check_and_insert_found orders now key c o).1 ≡ none
        → Holds key (now + c.retention) (check_and_insert_found orders now key c o).0.entries
    unfolding check_and_insert_found
    found-Holds c none f h = written-Holds c f
    found-Holds c (some e) f h = elim (Bool-cases (is_expired e now)) [
      | inl old ↦
          let self = bytes_eq_refl key in
          rw old (
            written-Holds (record c { entries = delete key c.entries })
              (lookup-delete key key c.entries ∙ rw self))
      | inr live ↦ absurd (ground arith)
    ]

  lazy_evict-retention : (c : ReplayCache) → (lazy_evict orders.lazy now c).retention ≡ c.retention
  unfolding lazy_evict
  lazy_evict-retention c = ground arith

  admitted-Holds :
      (c : ReplayCache) (agent_id nonce : Bytes)
      → (check_and_insert orders now c agent_id nonce).1 ≡ none
      → (length nonce ≡ nonce_size)
        × Holds
            (make_key agent_id nonce)
            (now + c.retention)
            (check_and_insert orders now c agent_id nonce).0.entries
  unfolding check_and_insert
  admitted-Holds c agent_id nonce h = elim (Bool-cases (not (length nonce == nonce_size))) [
    | inl bad ↦ absurd (ground arith)
    | inr good ↦
        let key = make_key agent_id nonce in
        let c' = lazy_evict orders.lazy now c in
        let held = found-Holds key c' (lookup key c'.entries) refl (rw good at h) in
        (
          ground arith,
          rw good (
              subst
                (λ r.
                  Holds key (now + r)
                    (check_and_insert_found orders now key c' (lookup key c'.entries)).0.entries)
                (lazy_evict-retention c) held),
        )
  ]

  -- A nonce that is held is refused.
  refused :
      (c : ReplayCache) (agent_id nonce : Bytes) (until : ℕ)
      → Fair orders
      → length nonce ≡ nonce_size
      → now < until
      → Holds (make_key agent_id nonce) until c.entries
      → (check_and_insert orders now c agent_id nonce).1 ≡ some nonce_reuse
  unfolding check_and_insert check_and_insert_found
  refused c agent_id nonce until fair size early h =
      let key = make_key agent_id nonce in
      let h' = lazy_evict-Holds key until orders.lazy now c fair.lazy early h in
      let (e, found, late) =
        Holds-lookup key until (lazy_evict orders.lazy now c).entries h'.later h'.present in
      ground arith

-- A nonce that `CheckAndInsert` lets in at a time is refused as reused from then on and before the
-- retention time is over, whatever other calls come between, in whatever orders the loops visit the
-- map: as long as the calls' clock readings lie in that time too, the cache is not cleared, and the calls
-- are no more than the entries that it still has room for.
pub replay_refused :
    (c : ReplayCache) (orders orders' : RangeOrders) (now later : ℕ) (agent_id nonce : Bytes)
    (calls : List Call)
    → (check_and_insert orders now c agent_id nonce).1 ≡ none
    → Fair orders
    → Fair orders'
    → now ≤ later
    → later < now + c.retention
    → All IsFair calls
    → All (Timely now (now + c.retention)) calls
    → length (check_and_insert orders now c agent_id nonce).0.entries + length calls ≤ c.max_entries
    → (check_and_insert orders' later
        (run (check_and_insert orders now c agent_id nonce).0 calls)
        agent_id
        nonce).1
      ≡ some nonce_reuse
replay_refused c orders orders' now later agent_id nonce calls h fair fair' after early fairs timely
      room =
    let (size, held) = admitted-Holds orders now c agent_id nonce h in
    let c' = (check_and_insert orders now c agent_id nonce).0 in
    let g : Grows c c' = unfold step in step-Grows c (admits orders now agent_id nonce) fair in
    let max = g.same_max in
    let ret = g.same_retention in
    refused orders' later (run c' calls) agent_id nonce (now + c.retention) fair' size early (
      run-Holds (make_key agent_id nonce) now (now + c.retention) c' calls (omega arith)
        (omega arith) fairs timely held)
