-- ===== src/ReplayCache/Bound.antt =====
-- Calls of the replay cache in any order, and how many entries they leave.
use aafp_go.Base.{ℕ, ◌≤◌, ◌≡◌, refl, ◌∙◌, Bytes, List, [], ◌∷◌, length, All, arith}
use aafp_go.ReplayCache.{
  RangeOrders, ReplayCache, check, check_and_insert, insert, evict_expired, clear,
}
use aafp_go.ReplayCache.Orders.{Fair}
use aafp_go.ReplayCache.Grows.{
  Grows, length-unexpired-le, check-Grows, check_and_insert-Grows, insert-Grows,
}

-- A call with the orders of its loops and its reading of the clock.
pub data Call : Type 0 where
  checks admits inserts : RangeOrders → ℕ → Bytes → Bytes → Call
  sweeps : ℕ → Call
  clears : Call

unfoldable pub step : ReplayCache → Call → ReplayCache
unfolding check check_and_insert insert evict_expired clear
step c (checks orders now agent_id nonce) = (check orders now c agent_id nonce).0
step c (admits orders now agent_id nonce) = (check_and_insert orders now c agent_id nonce).0
step c (inserts orders now agent_id nonce) = insert orders now c agent_id nonce
step c (sweeps now) = (evict_expired now c).0
step c clears = clear c

unfoldable pub run : ReplayCache → List Call → ReplayCache
run c [] = c
run c (call ∷ calls) = run (step c call) calls

abbrev pub IsFair : Call → Type 0
IsFair (checks orders now agent_id nonce) = Fair orders
IsFair (admits orders now agent_id nonce) = Fair orders
IsFair (inserts orders now agent_id nonce) = Fair orders
IsFair (sweeps now) = Unit
IsFair clears = Unit

pub step-Grows : (c : ReplayCache) (call : Call) → IsFair call → Grows c (step c call)
unfolding step
step-Grows c (checks orders now agent_id nonce) fair = check-Grows orders now fair c agent_id nonce
step-Grows c (admits orders now agent_id nonce) fair =
    check_and_insert-Grows orders now fair c agent_id nonce
step-Grows c (inserts orders now agent_id nonce) fair =
    insert-Grows orders now fair c agent_id nonce
step-Grows c (sweeps now) fair =
    let less = length-unexpired-le now c.entries in
    record {
      by_one = omega arith;
      within = λ pos small. omega arith;
      same_max = refl;
      same_retention = refl;
    }
step-Grows c clears fair = record {
  by_one = omega arith;
  within = λ pos small. omega arith;
  same_max = refl;
  same_retention = refl;
}

-- Whatever calls are made of a cache that is within its maximum of at least one entry, in whatever
-- orders its loops visit the map, it stays within it, and its maximum and retention do not change.
pub run-le-max_entries :
    (c : ReplayCache) (calls : List Call)
    → 1 ≤ c.max_entries
    → length c.entries ≤ c.max_entries
    → All IsFair calls
    → (length (run c calls).entries ≤ c.max_entries)
      × ((run c calls).max_entries ≡ c.max_entries)
      × ((run c calls).retention ≡ c.retention)
unfolding run
run-le-max_entries c [] pos small fair = (small, refl, refl)
run-le-max_entries c (call ∷ calls) pos small (f, fair) =
    let g = step-Grows c call f in
    let max = g.same_max in
    let size = g.within pos small in
    let (bound, max', ret') =
      run-le-max_entries (step c call) calls (omega arith) (omega arith) fair in
    (omega arith, max' ∙ max, ret' ∙ g.same_retention)
