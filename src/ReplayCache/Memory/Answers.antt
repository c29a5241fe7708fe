-- ===== src/ReplayCache/Memory/Answers.antt =====
-- Runs of calls: the cache gives the answers of its memory.
use aafp_go.Base.{
  ℕ, ◌+◌, ◌≤◌, ◌<◌, ◌≡◌, ◌≢◌, refl, subst, ◌∙◌, not, ◌==◌, Bytes, bytes_eq_iff, List, [], ◌∷◌,
  length, All, none, some, if◌then◌else◌, arith, Bool-cases, inl, inr,
}
use aafp_go.Cbor.Encode.Unordered.{Distinct}
use aafp_go.ReplayCache.{
  Entries, RangeOrders, ReplayCache, make_key, nonce_size, lookup, lazy_evict, fresh, check,
  check_and_insert_found, check_and_insert, insert_found, insert, unexpired, evict_expired, clear,
  nonce_reuse, new_with_params_unchecked,
}
use aafp_go.ReplayCache.Orders.{Fair}
use aafp_go.ReplayCache.Grows.{lazy_evict-Shrinks}
use aafp_go.ReplayCache.Bound.{
  Call, checks, admits, inserts, sweeps, clears, step, IsFair, step-Grows,
}
use aafp_go.ReplayCache.Distinct.{step-Distinct}
use aafp_go.ReplayCache.Memory.{
  Memory, forgetful, remembered, remember, memory_check, memory_admits, memory_step, Told, AllTold,
  time_of, Ordered, held, Agrees, admit,
}
use aafp_go.ReplayCache.Memory.Dead.{lazy_evict-held}
use aafp_go.ReplayCache.Memory.Counted.{evict_expired-CountsForgotten}
use aafp_go.ReplayCache.Memory.Refines.{
  check_found-Agrees, check_and_insert_found-Agrees, insert_found-Agrees,
}

-- What the memory answers does not depend on the retention time.
admit_result :
    (now : ℕ) (key : Bytes) (r : ℕ) (m : Memory)
    → (admit r now key m).1 ≡ (if remembered now (m key) then some nonce_reuse else none)
admit_result now key r m = ground arith

absent_key : (k : Bytes) (es : Entries) → All (λ p. k ≢ p.0) es → lookup k es ≡ none
unfolding lookup
absent_key k [] h = refl
absent_key k ((j, e) ∷ es) (q, h) = ground (arith, bytes_eq_iff j k, absent_key k es h, q)

unexpired-held :
    (now t : ℕ) (q : Bytes) (es : Entries)
    → Distinct es
    → now ≤ t
    → held t (lookup q (unexpired now es)) ≡ held t (lookup q es)
unfolding lookup
unexpired-held now t q [] h late = refl
unexpired-held now t q ((k, e) ∷ es) (fresh, h) late =
    let gone = absent_key k es fresh in
    let same = unexpired-held now t q es h late in ground (arith, same, gone, bytes_eq_iff k q)

module _ (orders : RangeOrders) (now : ℕ) (c : ReplayCache) (m : Memory) (fair : Fair orders)
    (distinct : Distinct c.entries) (h : Agrees now c m) where
  swept-Agrees : Agrees now (lazy_evict orders.lazy now c) m
  swept-Agrees q t late = lazy_evict-held t orders.lazy now c q fair.lazy distinct late ∙ h q t late

  module _ (room : length c.entries < c.max_entries) where
    swept_room :
        length (lazy_evict orders.lazy now c).entries < (lazy_evict orders.lazy now c).max_entries
    swept_room = let (less, max, ret) = lazy_evict-Shrinks orders.lazy now c in omega arith

    check-Agrees :
        (agent_id nonce : Bytes)
        → let call = checks orders now agent_id nonce in
          Told c m call × Agrees now (step c call) (memory_step c.retention m call)
    unfolding step memory_step memory_check check
    check-Agrees agent_id nonce = elim (Bool-cases (not (length nonce == nonce_size))) [
      | inl bad ↦ rw (bad, step) (refl, h)
      | inr good ↦
          let swept = lazy_evict orders.lazy now c in
          let key = make_key agent_id nonce in
          let (same, agrees) =
            check_found-Agrees orders now key swept m swept-Agrees swept_room
              (lookup key swept.entries) refl in
          rw (good, step) (same, agrees)
    ]

    check_and_insert-Agrees :
        (agent_id nonce : Bytes)
        → let call = admits orders now agent_id nonce in
          Told c m call × Agrees now (step c call) (memory_step c.retention m call)
    unfolding step memory_step memory_admits check_and_insert
    check_and_insert-Agrees agent_id nonce = elim (Bool-cases (not (length nonce == nonce_size))) [
      | inl bad ↦ rw (bad, step) (refl, h)
      | inr good ↦
          let swept = lazy_evict orders.lazy now c in
          let key = make_key agent_id nonce in
          let (_, _, ret) = lazy_evict-Shrinks orders.lazy now c in
          let (same, agrees) =
            check_and_insert_found-Agrees orders now key swept m swept-Agrees swept_room
              (lookup key swept.entries) refl in
          rw (good, step)
            (
              same ∙ admit_result now key (lazy_evict orders.lazy now c).retention m,
              subst
                  (λ r.
                    Agrees now
                      (check_and_insert_found orders now key swept (lookup key swept.entries)).0
                      (admit r now key m).0)
                  ret agrees,
            )
    ]

    insert-Agrees :
        (agent_id nonce : Bytes)
        → let call = inserts orders now agent_id nonce in
          Told c m call × Agrees now (step c call) (memory_step c.retention m call)
    unfolding step memory_step insert
    insert-Agrees agent_id nonce = elim (Bool-cases (not (length nonce == nonce_size))) [
      | inl bad ↦ rw (bad, step) (tt, h)
      | inr good ↦
          let swept = lazy_evict orders.lazy now c in
          let key = make_key agent_id nonce in
          let (_, _, ret) = lazy_evict-Shrinks orders.lazy now c in
          let agrees =
            insert_found-Agrees orders now key swept m swept-Agrees swept_room
              (lookup key swept.entries) in
          rw (good, step)
            (
              tt,
              subst
                  (λ r.
                    Agrees now (insert_found orders now key swept (lookup key swept.entries))
                      (remember key (now + r) m))
                  ret agrees,
            )
    ]

step-Agrees :
    (t : ℕ) (c : ReplayCache) (m : Memory) (call : Call)
    → Agrees t c m
    → t ≤ time_of t call
    → Distinct c.entries
    → IsFair call
    → length c.entries < c.max_entries
    → Told c m call × Agrees (time_of t call) (step c call) (memory_step c.retention m call)
step-Agrees t c m (checks orders now a n) h late d fair room =
    check-Agrees orders now c m fair d (λ q u later. h q u (omega arith)) room a n
step-Agrees t c m (admits orders now a n) h late d fair room =
    check_and_insert-Agrees orders now c m fair d (λ q u later. h q u (omega arith)) room a n
step-Agrees t c m (inserts orders now a n) h late d fair room =
    insert-Agrees orders now c m fair d (λ q u later. h q u (omega arith)) room a n
step-Agrees t c m (sweeps now) h late d fair room =
    let counted = evict_expired-CountsForgotten now c m d (λ q u later. h q u (omega arith)) in
    unfold step memory_step evict_expired in
    (counted, λ q u later. unexpired-held now u q c.entries d later ∙ h q u (omega arith))
step-Agrees t c m clears h late d fair room =
    unfold step memory_step clear lookup in (tt, λ q u later. refl)

calls-AllTold :
    (t : ℕ) (c : ReplayCache) (m : Memory) (calls : List Call)
    → Agrees t c m
    → Ordered t calls
    → Distinct c.entries
    → All IsFair calls
    → length c.entries + length calls ≤ c.max_entries
    → AllTold c.retention c m calls
calls-AllTold t c m [] h order d fair room = tt
calls-AllTold t c m (call ∷ calls) h (late, order) d (f, fair) room =
    let (same, agrees) = step-Agrees t c m call h late d f (omega arith) in
    let g = step-Grows c call f in
    let size = g.by_one in
    let max = g.same_max in
    let rest =
      calls-AllTold (time_of t call) (step c call) (memory_step c.retention m call) calls agrees
        order (step-Distinct c call d) fair (omega arith) in
    (
      same,
      subst (λ r. AllTold r (step c call) (memory_step c.retention m call) calls) g.same_retention
          rest,
    )

-- A new cache answers as a memory without bound does, in which `CheckAndInsert` where it lets a nonce
-- in, and `Insert` always, set a key's retention time anew, and which refuses the key until that time is
-- over or `Clear` is called: `Check` and `CheckAndInsert` tell whether the memory refuses the nonce,
-- or that it is not 32 bytes long, and `EvictExpired` returns the number of the keys that the cache
-- still holds and the memory does not refuse any more. The calls, of any kind, are no more than the
-- maximum of entries, their clock readings do not go back, and each loop visits each entry once, in
-- any order.
pub cache_refines_memory :
    (retention max_entries : ℕ) (calls : List Call)
    → length calls ≤ max_entries
    → Ordered 0 calls
    → All IsFair calls
    → AllTold retention (new_with_params_unchecked retention max_entries) forgetful calls
unfolding new_with_params_unchecked
cache_refines_memory retention max_entries calls room order fair =
    calls-AllTold 0 (new_with_params_unchecked retention max_entries) forgetful calls
      (λ q t late. unfold lookup in refl) order tt fair (omega arith)
