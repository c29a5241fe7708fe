-- ===== src/ReplayCache/Runs.antt =====
-- Runs of replaycache/ on a cache of two entries at most, its retention ten nanoseconds.
use mathlib.Core.List.Permᴰ
use aafp_go.Base.{
  ℕ, zero, suc, ◌≤◌, ◌≡◌, refl, Bytes, List, [], ◌∷◌, length, take, none, some, arith, inl,
}
use aafp_go.ReplayCache.{
  Entry, Entries, RangeOrders, ReplayCache, nonce_reuse, check_and_insert, make_key, copied,
  new_with_params_unchecked, evict_lru, evict_expired, insert, delete, lookup, store, check,
}
use aafp_go.ReplayCache.Orders.{Fair, In}
use aafp_go.ReplayCache.Evict.{IsDue, Without, evict_lru_lem}
use aafp_go.ReplayCache.Bound.{
  Call, checks, admits, inserts, sweeps, clears, step, run, run-le-max_entries,
}
use aafp_go.ReplayCache.Replay.{replay_refused}
use aafp_go.ReplayCache.Fresh.{fresh_admitted}
use aafp_go.ReplayCache.Memory.{forgetful, AllTold}
use aafp_go.ReplayCache.Memory.Answers.{cache_refines_memory}
use aafp_go.ReplayCache.Checker.{
  HandshakeReplayChecker, check_client_hello, check_client_hello-twice,
}

abbrev filled : ℕ → ℕ → Bytes
filled zero b = []
filled (suc n) b = b ∷ filled n b

abbrev alice : Bytes
alice = filled 32 1

abbrev bob : Bytes
bob = filled 32 2

abbrev nonce : Bytes
nonce = filled 32 7

abbrev as_stored : RangeOrders
as_stored = record { lazy = λ es. es; expired = λ es. es; lru = λ es. es }

as_stored-Fair : Fair as_stored
as_stored-Fair = record {
  lazy = λ es. Permᴰ.refl es;
  expired = λ es. Permᴰ.refl es;
  lru = λ es. Permᴰ.refl es;
}

abbrev empty : ReplayCache
empty = record { entries = []; retention = 10; max_entries = 2 }

-- Alice's nonce, refused again after a sweep.
replay_refused_example :
    (check_and_insert as_stored 9
      (run (check_and_insert as_stored 0 empty alice nonce).0 (sweeps 5 ∷ []))
      alice
      nonce).1
    ≡ some nonce_reuse
unfolding check_and_insert store
replay_refused_example =
    replay_refused empty as_stored as_stored 0 9 alice nonce (sweeps 5 ∷ []) refl as_stored-Fair
      as_stored-Fair (omega arith) (omega arith) (tt, tt) ((omega arith, omega arith), tt)
      (omega arith)

abbrev busy : List Call
busy =
    admits as_stored 0 alice nonce
    ∷ admits as_stored 1 bob nonce
    ∷ admits as_stored 2 alice alice
    ∷ []

run-le-max_entries_example :
    (length (run empty busy).entries ≤ 2)
    × ((run empty busy).max_entries ≡ 2)
    × ((run empty busy).retention ≡ 10)
run-le-max_entries_example =
    run-le-max_entries empty busy (omega arith) (omega arith)
      (as_stored-Fair, (as_stored-Fair, (as_stored-Fair, tt)))

abbrev old_and_new : Entries
old_and_new =
    (1 ∷ [], record { expires_at = 20; last_accessed = 6 })
    ∷ (2 ∷ [], record { expires_at = 14; last_accessed = 4 })
    ∷ []

abbrev half_old : ReplayCache
half_old = record { entries = old_and_new; retention = 10; max_entries = 2 }

-- The key 2 was used longest ago.
evict_lru_lem_example :
    (k : Bytes) × (e : Entry) × In (k, e) old_and_new
    × IsDue 8 old_and_new e
    × Without k half_old (evict_lru as_stored 8 half_old)
evict_lru_lem_example = evict_lru_lem as_stored 8 half_old as_stored-Fair (omega arith)

-- Bob's nonce is not refused because Alice has used it.
fresh_admitted_example :
    (check_and_insert as_stored 3 (run empty (admits as_stored 0 alice nonce ∷ [])) bob nonce).1
    ≡ none
unfolding lookup
fresh_admitted_example =
    fresh_admitted empty bob nonce (admits as_stored 0 alice nonce ∷ []) as_stored 3 refl refl refl
      ((refl, refl, inl (λ same. cc)), tt)

abbrev checker : HandshakeReplayChecker
checker = record { cache = empty }

check_client_hello-twice_example :
    (check_client_hello as_stored 1
      (check_client_hello as_stored 0 checker alice nonce).0
      alice
      nonce).1
    ≡ none
unfolding check_client_hello check
check_client_hello-twice_example =
    check_client_hello-twice checker as_stored as_stored 0 1 alice nonce refl

-- Alice's nonce comes twice, is asked for, expires, and comes again.
abbrev daily : List Call
daily =
    admits as_stored 1 alice nonce
    ∷ admits as_stored 4 alice nonce
    ∷ checks as_stored 5 alice nonce
    ∷ inserts as_stored 6 bob nonce
    ∷ sweeps 20
    ∷ admits as_stored 21 alice nonce
    ∷ clears
    ∷ checks as_stored 22 alice nonce
    ∷ []

cache_refines_memory_example : AllTold 10 (new_with_params_unchecked 10 8) forgetful daily
cache_refines_memory_example = cache_refines_memory 10 8 daily (omega arith) (ground arith) (
  as_stored-Fair,
  (
    as_stored-Fair,
    (as_stored-Fair, (as_stored-Fair, (tt, (as_stored-Fair, (tt, (as_stored-Fair, tt)))))),
  ),
)

-- When the cache is swept, Alice's nonce and Bob's are both there, and both forgotten.
swept_two : (evict_expired 20 (run empty (take 4 daily))).1 ≡ 2
unfolding evict_expired run step check_and_insert check insert store delete make_key copied
swept_two = refl
