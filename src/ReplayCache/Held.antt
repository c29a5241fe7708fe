-- ===== src/ReplayCache/Held.antt =====
-- While the cache has room, a nonce that was let in is held until its retention time is over.
use aafp_go.Base.{
  ℕ, ◌+◌, ◌/◌, ◌≤◌, ◌<◌, ◌≡◌, ◌≢◌, refl, sym, ◌∙◌, true, false, not, leb, ◌==◌, Bytes, bytes_eq, [],
  ◌∷◌, length, take, All, Option, none, some, arith, Bool-cases, inl, inr,
}
use aafp_go.ReplayCache.{
  Entry, Entries, Order, RangeOrders, ReplayCache, is_expired, expired_keys, batch_size, lookup,
  delete, store, make_key, lazy_evict, check_found, check, make_room, write, fresh,
  check_and_insert_found, check_and_insert, insert_found, insert, unexpired, nonce_size,
}
use aafp_go.ReplayCache.Lookups.{
  bytes_eq_left, lookup-delete, lookup-store, lookup-delete_all, All-delete, All-delete_all,
  All-store, All-unexpired, length-delete-le, length-delete_all-le,
}
use aafp_go.ReplayCache.Orders.{VisitsOnce, Fair, All-perm, All-take}

-- Every entry under the key expires at `until` or later.
abbrev pub Later : Bytes → ℕ → Bytes × Entry → Type 0
Later key until p = bytes_eq p.0 key ≡ true → until ≤ p.1.expires_at

pub record Holds (key : Bytes) (until : ℕ) (es : Entries) : Type 0 where
  pub later : All (Later key until) es
  pub present : lookup key es ≢ none

module _ (key : Bytes) (until : ℕ) where
  pub Holds-lookup :
      (es : Entries)
      → All (Later key until) es
      → lookup key es ≢ none
      → (e : Entry) × (lookup key es ≡ some e) × (until ≤ e.expires_at)
  unfolding lookup
  Holds-lookup [] h p = absurd (p refl)
  Holds-lookup ((k, e) ∷ es) (q, h) p = elim (Bool-cases (bytes_eq k key)) [
    | inl here ↦ (e, rw here, q here)
    | inr other ↦
        let (d, found, late) = Holds-lookup es h (λ none_there. p (rw other none_there)) in
        (d, rw other found, late)
  ]

  spared :
      (now : ℕ) (es : Entries)
      → now < until
      → All (Later key until) es
      → All (λ k. bytes_eq k key ≡ false) (expired_keys now es)
  spared now [] early h = tt
  spared now ((k, e) ∷ es) early (q, h) = elim (Bool-cases (is_expired e now)) [
    | inl old ↦ rw old (elim (Bool-cases (bytes_eq k key)) [
      | inl same ↦ let late = q same in absurd (ground arith)
      | inr other ↦ (other, spared now es early h)
    ])
    | inr live ↦ rw live (spared now es early h)
  ]

  pub lazy_evict-Holds :
      (order : Order) (now : ℕ) (c : ReplayCache)
      → VisitsOnce order
      → now < until
      → Holds key until c.entries
      → Holds key until (lazy_evict order now c).entries
  unfolding lazy_evict
  lazy_evict-Holds order now c once early h =
      elim (Bool-cases (leb (length c.entries) (c.max_entries / 2))) [
        | inl small ↦ rw small h
        | inr big ↦
            let visited = All-perm (Later key until) (once c.entries) h.later in
            let sweep = expired_keys now (take batch_size (order c.entries)) in
            let safe =
              spared now (take batch_size (order c.entries)) early
                (All-take (Later key until) batch_size (order c.entries) visited) in
            rw big (record {
              later = All-delete_all (Later key until) sweep c.entries h.later;
              present = λ gone. h.present (sym (lookup-delete_all key sweep c.entries safe) ∙ gone);
            })
      ]

  pub store-Holds :
      (k : Bytes) (e : Entry) (es : Entries)
      → Later key until (k, e)
      → Holds key until es
      → Holds key until (store k e es)
  store-Holds k e es late h = record {
    later = All-store (Later key until) k e es late h.later;
    present = λ gone. let found = lookup-store key k e es in let there = h.present in ground arith;
  }

  -- Deleting another key, or the key where its entry has expired, which it has not.
  delete-Holds :
      (k : Bytes) (es : Entries)
      → bytes_eq k key ≡ false
      → Holds key until es
      → Holds key until (delete k es)
  delete-Holds k es other h = record {
    later = All-delete (Later key until) k es h.later;
    present = λ gone. h.present (sym (lookup-delete key k es ∙ rw other) ∙ gone);
  }

  lookup-unexpired :
      (now : ℕ) (es : Entries)
      → now < until
      → All (Later key until) es
      → lookup key es ≢ none
      → lookup key (unexpired now es) ≢ none
  unfolding lookup
  lookup-unexpired now [] early h p = p
  lookup-unexpired now ((k, e) ∷ es) early (q, h) p = elim (Bool-cases (bytes_eq k key)) [
    | inl same ↦ let late = q same in ground arith
    | inr other ↦
        let rest = lookup-unexpired now es early h (λ none_there. p (rw other none_there)) in
        ground arith
  ]

  pub unexpired-Holds :
      (now : ℕ) (es : Entries)
      → now < until
      → Holds key until es
      → Holds key until (unexpired now es)
  unexpired-Holds now es early h = record {
    later = All-unexpired (Later key until) now es h.later;
    present = lookup-unexpired now es early h.later h.present;
  }

  -- An entry that is found is later, too.
  found-Later :
      (k : Bytes) (e : Entry) (es : Entries)
      → lookup k es ≡ some e
      → All (Later key until) es
      → Later key until (k, e)
  unfolding lookup
  found-Later k e [] f h = cc
  found-Later k e ((j, d) ∷ es) f (q, h) = elim (Bool-cases (bytes_eq j k)) [
    | inl here ↦ λ same.
        let again : bytes_eq j key ≡ true = bytes_eq_left j k key here ∙ same in
        let late = q again in ground arith
    | inr other ↦ found-Later k e es (ground arith) h
  ]

  expired-other :
      (now : ℕ) (k : Bytes) (e : Entry)
      → now < until
      → is_expired e now ≡ true
      → Later key until (k, e)
      → bytes_eq k key ≡ false
  expired-other now k e early old late = elim (Bool-cases (bytes_eq k key)) [
    | inl same ↦ let after = late same in absurd (ground arith)
    | inr other ↦ other
  ]

  -- One call, made before the time is over and while the cache is not full.
  module _ (orders : RangeOrders) (now : ℕ) (early : now < until) where
    check_found-Holds :
        (k : Bytes) (c : ReplayCache) (o : Option Entry)
        → lookup k c.entries ≡ o
        → Holds key until c.entries
        → Holds key until (check_found now k c o).0.entries
    unfolding check_found
    check_found-Holds k c none f h = h
    check_found-Holds k c (some e) f h =
        let late = found-Later k e c.entries f h.later in
        elim (Bool-cases (is_expired e now)) [
          | inl old ↦ rw old (delete-Holds k c.entries (expired-other now k e early old late) h)
          | inr live ↦ rw live (store-Holds k (record e { last_accessed = now }) c.entries late h)
        ]

    pub check-Holds :
        (c : ReplayCache) (agent_id nonce : Bytes)
        → Fair orders
        → Holds key until c.entries
        → Holds key until (check orders now c agent_id nonce).0.entries
    unfolding check
    check-Holds c agent_id nonce fair h = elim (Bool-cases (not (length nonce == nonce_size))) [
      | inl bad ↦ rw bad h
      | inr good ↦ rw good (
          check_found-Holds (make_key agent_id nonce) (lazy_evict orders.lazy now c) _ refl
            (lazy_evict-Holds orders.lazy now c fair.lazy early h))
    ]

    module _ (k : Bytes) (c : ReplayCache) (late : until ≤ now + c.retention)
        (room : length c.entries < c.max_entries) where
      write-Holds : Holds key until c.entries → Holds key until (write now k c).entries
      unfolding write
      write-Holds h = store-Holds k (fresh c now) c.entries (λ same. late) h

      make_room_idle : make_room orders now c ≡ c
      unfolding make_room
      make_room_idle = ground arith

    check_and_insert_found-Holds :
        (k : Bytes) (c : ReplayCache) (o : Option Entry)
        → until ≤ now + c.retention
        → length c.entries < c.max_entries
        → lookup k c.entries ≡ o
        → Holds key until c.entries
        → Holds key until (check_and_insert_found orders now k c o).0.entries
    unfolding check_and_insert_found
    check_and_insert_found-Holds k c none late room f h =
        rw (make_room_idle k c late room) (write-Holds k c late room h)
    check_and_insert_found-Holds k c (some e) late room f h = elim (Bool-cases (is_expired e now)) [
      | inl old ↦
          let c' : ReplayCache = record c { entries = delete k c.entries } in
          let room' : length (delete k c.entries) < c.max_entries =
            omega (arith, length-delete-le k c.entries) in
          let other = expired-other now k e early old (found-Later k e c.entries f h.later) in
          rw (old, make_room_idle k c' late room')
            (write-Holds k c' late room' (delete-Holds k c.entries other h))
      | inr live ↦ rw live h
    ]

    insert_found-Holds :
        (k : Bytes) (c : ReplayCache) (o : Option Entry)
        → until ≤ now + c.retention
        → length c.entries < c.max_entries
        → Holds key until c.entries
        → Holds key until (insert_found orders now k c o).entries
    unfolding insert_found
    insert_found-Holds k c none late room h =
        rw (make_room_idle k c late room) (write-Holds k c late room h)
    insert_found-Holds k c (some e) late room h = write-Holds k c late room h

    module _ (c : ReplayCache) (agent_id nonce : Bytes) (fair : Fair orders)
        (late : until ≤ now + c.retention) (room : length c.entries < c.max_entries)
        (h : Holds key until c.entries) where
      swept : ReplayCache
      swept = lazy_evict orders.lazy now c

      swept_room : (length swept.entries < swept.max_entries) × (until ≤ now + swept.retention)
      unfolding swept lazy_evict
      swept_room = ground (
        arith,
        length-delete_all-le (expired_keys now (take batch_size (orders.lazy c.entries))) c.entries,
      )

      pub check_and_insert-Holds :
          Holds key until (check_and_insert orders now c agent_id nonce).0.entries
      unfolding check_and_insert swept
      check_and_insert-Holds = elim (Bool-cases (not (length nonce == nonce_size))) [
        | inl bad ↦ rw bad h
        | inr good ↦ rw good (
            check_and_insert_found-Holds (make_key agent_id nonce) swept _ swept_room.1 swept_room.0
              refl (lazy_evict-Holds orders.lazy now c fair.lazy early h))
      ]

      pub insert-Holds : Holds key until (insert orders now c agent_id nonce).entries
      unfolding insert swept
      insert-Holds = elim (Bool-cases (not (length nonce == nonce_size))) [
        | inl bad ↦ rw bad h
        | inr good ↦ rw good (
            insert_found-Holds (make_key agent_id nonce) swept _ swept_room.1 swept_room.0
              (lazy_evict-Holds orders.lazy now c fair.lazy early h))
      ]
