-- ===== src/ReplayCache/Fresh.antt =====
-- No nonce is refused that was not let in before under the same agent.
use aafp_go.Base.{
  ℕ, zero, suc, ◌≡◌, ◌≢◌, refl, sym, ap, ◌∙◌, false, Bytes, bytes_eq, bytes_eq_iff, List, [], ◌∷◌,
  length, take, All, Option, none, some, arith, append_split, Bool-cases, inl, inr, ◌⊎◌,
}
use aafp_go.ReplayCache.{
  Entry, Entries, RangeOrders, ReplayCache, copied, make_key, nonce_size, agent_id_size, is_expired,
  expired_keys, batch_size, lookup, delete, store, delete_all, lazy_evict, victim, evict_lru,
  make_room, write, fresh, check_found, check, check_and_insert_found, check_and_insert,
  insert_found, insert, unexpired, evict_expired, clear,
}
use aafp_go.ReplayCache.Lookups.{lookup-delete, lookup-store}
use aafp_go.ReplayCache.Bound.{Call, checks, admits, inserts, sweeps, clears, step, run}
use aafp_go.ReplayCache.Grows.{evict_lru-some, evict_lru-none, Option-cases}

copied_whole : (n : ℕ) (bs : Bytes) → length bs ≡ n → copied n bs ≡ bs
unfolding copied
copied_whole zero [] h = refl
copied_whole zero (b ∷ bs) h = absurd (omega arith)
copied_whole (suc n) [] h = absurd (omega arith)
copied_whole (suc n) (b ∷ bs) h = ap (λ tail. b ∷ tail) (copied_whole n bs (omega arith))

-- Where ids and nonces have their size, keys do not collide.
pub make_key-inj :
    (a b m n : Bytes)
    → length a ≡ agent_id_size
    → length b ≡ agent_id_size
    → length m ≡ nonce_size
    → length n ≡ nonce_size
    → make_key a m ≡ make_key b n
    → (a ≡ b) × (m ≡ n)
unfolding make_key
make_key-inj a b m n la lb lm ln h = append_split a b m n (la ∙ sym lb) (
    rw (copied_whole 32 a la, copied_whole 32 b lb, copied_whole 32 m lm, copied_whole 32 n ln) at
      h)

-- The calls that may let in a nonce under the key are not of this one.
abbrev pub IsOther : Bytes → Call → Type 0
IsOther key (checks orders now agent_id nonce) = Unit
IsOther key (admits orders now agent_id nonce) = bytes_eq (make_key agent_id nonce) key ≡ false
IsOther key (inserts orders now agent_id nonce) = bytes_eq (make_key agent_id nonce) key ≡ false
IsOther key (sweeps now) = Unit
IsOther key clears = Unit

module _ (key : Bytes) where
  abbrev pub Absent : Entries → Type 0
  Absent es = lookup key es ≡ none

  delete-Absent : (k : Bytes) (es : Entries) → Absent es → Absent (delete k es)
  delete-Absent k es h = lookup-delete key k es ∙ rw h (ground arith)

  delete_all-Absent : (ks : List Bytes) (es : Entries) → Absent es → Absent (delete_all ks es)
  delete_all-Absent [] es h = h
  delete_all-Absent (k ∷ ks) es h = delete_all-Absent ks (delete k es) (delete-Absent k es h)

  store-Absent :
      (k : Bytes) (e : Entry) (es : Entries)
      → bytes_eq k key ≡ false
      → Absent es
      → Absent (store k e es)
  store-Absent k e es other h = lookup-store key k e es ∙ rw (other, h) refl

  unexpired-Absent : (now : ℕ) (es : Entries) → Absent es → Absent (unexpired now es)
  unfolding lookup
  unexpired-Absent now [] h = refl
  unexpired-Absent now ((k, e) ∷ es) h = ground (arith, unexpired-Absent now es)

  module _ (orders : RangeOrders) (now : ℕ) (c : ReplayCache) where
    pub lazy_evict-Absent : Absent c.entries → Absent (lazy_evict orders.lazy now c).entries
    unfolding lazy_evict
    lazy_evict-Absent h =
        let sweep = expired_keys now (take batch_size (orders.lazy c.entries)) in
        ground (arith, delete_all-Absent sweep c.entries h)

    evict_lru-Absent : Absent c.entries → Absent (evict_lru orders now c).entries
    evict_lru-Absent h = elim (Option-cases (victim orders now c.entries)) [
      | inl gone ↦ rw (evict_lru-none orders now c gone) h
      | inr (k, chosen) ↦ rw (evict_lru-some orders now c k chosen) (delete-Absent k c.entries h)
    ]

    make_room-Absent : Absent c.entries → Absent (make_room orders now c).entries
    unfolding make_room
    make_room-Absent h = ground (arith, evict_lru-Absent h)

  module _ (orders : RangeOrders) (now : ℕ) where
    write-Absent :
        (k : Bytes) (c : ReplayCache)
        → bytes_eq k key ≡ false
        → Absent c.entries
        → Absent (write now k c).entries
    unfolding write
    write-Absent k c other h = store-Absent k (fresh c now) c.entries other h

    check_found-Absent :
        (k : Bytes) (c : ReplayCache) (o : Option Entry)
        → lookup k c.entries ≡ o
        → Absent c.entries
        → Absent (check_found now k c o).0.entries
    unfolding check_found
    check_found-Absent k c none f h = h
    check_found-Absent k c (some e) f h = elim (Bool-cases (is_expired e now)) [
      | inl old ↦ rw old (delete-Absent k c.entries h)
      | inr live ↦
          let other : bytes_eq k key ≡ false = elim (Bool-cases (bytes_eq k key)) [
            | inl same ↦
                let equal : k ≡ key = (bytes_eq_iff k key).0 same in
                absurd
                  (let found : ◌≡◌ {A = Option Entry} (some e) none = sym (rw equal at f) ∙ h in cc)
            | inr other ↦ other
          ] in
          rw live (store-Absent k (record e { last_accessed = now }) c.entries other h)
    ]

    check_and_insert_found-Absent :
        (k : Bytes) (c : ReplayCache) (o : Option Entry)
        → bytes_eq k key ≡ false
        → Absent c.entries
        → Absent (check_and_insert_found orders now k c o).0.entries
    unfolding check_and_insert_found
    check_and_insert_found-Absent k c none other h =
        write-Absent k (make_room orders now c) other (make_room-Absent orders now c h)
    check_and_insert_found-Absent k c (some e) other h = elim (Bool-cases (is_expired e now)) [
      | inl old ↦
          let c' : ReplayCache = record c { entries = delete k c.entries } in
          rw old (
            write-Absent k (make_room orders now c') other
              (make_room-Absent orders now c' (delete-Absent k c.entries h)))
      | inr live ↦ rw live h
    ]

    insert_found-Absent :
        (k : Bytes) (c : ReplayCache) (o : Option Entry)
        → bytes_eq k key ≡ false
        → Absent c.entries
        → Absent (insert_found orders now k c o).entries
    unfolding insert_found
    insert_found-Absent k c none other h =
        write-Absent k (make_room orders now c) other (make_room-Absent orders now c h)
    insert_found-Absent k c (some e) other h = write-Absent k c other h

  step-Absent :
      (c : ReplayCache) (call : Call)
      → IsOther key call
      → Absent c.entries
      → Absent (step c call).entries
  unfolding step check check_and_insert insert evict_expired clear lookup
  step-Absent c (checks orders now agent_id nonce) other h =
      let k = make_key agent_id nonce in
      let swept = lazy_evict orders.lazy now c in
      ground (
        arith,
        check_found-Absent orders now k swept (lookup k swept.entries) refl
            (lazy_evict-Absent orders now c h),
      )
  step-Absent c (admits orders now agent_id nonce) other h =
      let k = make_key agent_id nonce in
      let swept = lazy_evict orders.lazy now c in
      ground (
        arith,
        check_and_insert_found-Absent orders now k swept (lookup k swept.entries) other
            (lazy_evict-Absent orders now c h),
      )
  step-Absent c (inserts orders now agent_id nonce) other h =
      let k = make_key agent_id nonce in
      let swept = lazy_evict orders.lazy now c in
      ground (
        arith,
        insert_found-Absent orders now k swept (lookup k swept.entries) other
            (lazy_evict-Absent orders now c h),
      )
  step-Absent c (sweeps now) other h = unexpired-Absent now c.entries h
  step-Absent c clears other h = refl

  run-Absent :
      (c : ReplayCache) (calls : List Call)
      → All (IsOther key) calls
      → Absent c.entries
      → Absent (run c calls).entries
  unfolding run
  run-Absent c [] others h = h
  run-Absent c (call ∷ calls) (o, others) h =
      run-Absent (step c call) calls others (step-Absent c call o h)

-- A call of another agent, or with another nonce, where ids and nonces have their size.
abbrev IsDifferent : Bytes → Bytes → Bytes → Bytes → Type 0
IsDifferent agent_id nonce a n =
    (length a ≡ agent_id_size) × (length n ≡ nonce_size) × ((a ≢ agent_id) ⊎ (n ≢ nonce))

abbrev pub IsAnothers : Bytes → Bytes → Call → Type 0
IsAnothers agent_id nonce (checks orders now a n) = Unit
IsAnothers agent_id nonce (admits orders now a n) = IsDifferent agent_id nonce a n
IsAnothers agent_id nonce (inserts orders now a n) = IsDifferent agent_id nonce a n
IsAnothers agent_id nonce (sweeps now) = Unit
IsAnothers agent_id nonce clears = Unit

module _ (agent_id nonce : Bytes) (id_size : length agent_id ≡ agent_id_size)
    (size : length nonce ≡ nonce_size) where
  different_key :
      (a n : Bytes)
      → IsDifferent agent_id nonce a n
      → bytes_eq (make_key a n) (make_key agent_id nonce) ≡ false
  different_key a n (la, ln, other) =
      elim (Bool-cases (bytes_eq (make_key a n) (make_key agent_id nonce))) [
        | inl same ↦
            let equal = (bytes_eq_iff (make_key a n) (make_key agent_id nonce)).0 same in
            let (ids, nonces) = make_key-inj a agent_id n nonce la id_size ln size equal in
            absurd (elim other [ inl p ↦ p ids | inr p ↦ p nonces ])
        | inr differ ↦ differ
      ]

  others : (call : Call) → IsAnothers agent_id nonce call → IsOther (make_key agent_id nonce) call
  others (checks orders now a n) h = tt
  others (admits orders now a n) h = different_key a n h
  others (inserts orders now a n) h = different_key a n h
  others (sweeps now) h = tt
  others clears h = tt

  others_of :
      (calls : List Call)
      → All (IsAnothers agent_id nonce) calls
      → All (IsOther (make_key agent_id nonce)) calls
  others_of [] h = tt
  others_of (call ∷ calls) (p, h) = (others call p, others_of calls h)

  pub Absent-admitted :
      (orders : RangeOrders) (now : ℕ) (c : ReplayCache)
      → lookup (make_key agent_id nonce) c.entries ≡ none
      → (check_and_insert orders now c agent_id nonce).1 ≡ none
  unfolding check_and_insert check_and_insert_found
  Absent-admitted orders now c h =
      let gone = lazy_evict-Absent (make_key agent_id nonce) orders now c h in ground arith

-- `CheckAndInsert` lets a nonce in that no call before it, on a cache that held no entry under the agent
-- and the nonce, has offered for that agent: whatever the calls were, all with ids and nonces of 32
-- bytes like the agent and the nonce, at whatever times
-- and in whatever orders of the loops. No other agent's nonce, even an equal one, has it refused.
pub fresh_admitted :
    (c : ReplayCache) (agent_id nonce : Bytes) (calls : List Call) (orders : RangeOrders) (now : ℕ)
    → length agent_id ≡ agent_id_size
    → length nonce ≡ nonce_size
    → lookup (make_key agent_id nonce) c.entries ≡ none
    → All (IsAnothers agent_id nonce) calls
    → (check_and_insert orders now (run c calls) agent_id nonce).1 ≡ none
fresh_admitted c agent_id nonce calls orders now id_size size gone h =
    Absent-admitted agent_id nonce id_size size orders now (run c calls) (
      run-Absent (make_key agent_id nonce) c calls (others_of agent_id nonce id_size size calls h)
        gone)
