-- ===== src/ReplayCache/Memory.antt =====
-- What the cache promises, as a memory without bound: each key with the time from which its nonce is let
-- in again. While the cache has room it answers as the memory does.
pub mod Dead
pub mod Refines
pub mod Counted
pub mod Answers
use aafp_go.Base.{
  ℕ, ◌+◌, ◌≤◌, Bool, true, false, not, leb, ◌==◌, if◌then◌else◌, Bytes, bytes_eq, List, [], ◌∷◌,
  length, ◌≡◌, ◌≢◌, ◌⊎◌, ◌↔◌, All, Option, none, some,
}
use aafp_go.ReplayCache.{
  CacheError, nonce_reuse, nonce_length, Entry, RangeOrders, ReplayCache, make_key, nonce_size,
  is_expired, lookup, check, check_and_insert, evict_expired,
}
use aafp_go.ReplayCache.Bound.{Call, checks, admits, inserts, sweeps, clears, step}

abbrev pub Memory : Type 0
Memory = Bytes → Option ℕ

abbrev pub forgetful : Memory
forgetful key = none

-- Is the nonce refused at the time?
abbrev pub remembered : ℕ → Option ℕ → Bool
remembered now none = false
remembered now (some until) = not (leb until now)

abbrev pub remember : Bytes → ℕ → Memory → Memory
remember key until m = λ q. if bytes_eq key q then some until else m q

-- The operations of the memory, on a key.
abbrev pub admit : ℕ → ℕ → Bytes → Memory → Memory × Option CacheError
admit retention now key m =
    if remembered now (m key)
    then (m, some nonce_reuse)
    else (remember key (now + retention) m, none)

-- What the memory answers to `Check` and to `CheckAndInsert`.
unfoldable pub memory_check : ℕ → Memory → Bytes → Bytes → Bool
memory_check now m agent_id nonce =
    if not (length nonce == nonce_size) then false else remembered now (m (make_key agent_id nonce))

unfoldable pub memory_admits : ℕ → Memory → Bytes → Bytes → Option CacheError
memory_admits now m agent_id nonce =
    if not (length nonce == nonce_size)
    then some nonce_length
    else if remembered now (m (make_key agent_id nonce))
    then some nonce_reuse
    else none

-- What a call does to the memory.
unfoldable pub memory_step : ℕ → Memory → Call → Memory
memory_step retention m (checks orders now agent_id nonce) = m
memory_step retention m (admits orders now agent_id nonce) =
    if not (length nonce == nonce_size)
    then m
    else (admit retention now (make_key agent_id nonce) m).0
memory_step retention m (inserts orders now agent_id nonce) =
    if not (length nonce == nonce_size)
    then m
    else remember (make_key agent_id nonce) (now + retention) m
memory_step retention m (sweeps now) = m
memory_step retention m clears = forgetful

abbrev pub Among : Bytes → List Bytes → Type 0
Among k [] = ⊥
Among k (j ∷ ks) = (k ≡ j) ⊎ Among k ks

abbrev pub AllDifferent : List Bytes → Type 0
AllDifferent [] = Unit
AllDifferent (k ∷ ks) = All (λ j. k ≢ j) ks × AllDifferent ks

-- The number of the keys that the cache still holds and the memory does not refuse any more.
abbrev pub CountsForgotten : ℕ → ReplayCache → Memory → ℕ → Type 0
CountsForgotten now c m n =
    (ks : List Bytes) × AllDifferent ks
    × (length ks ≡ n)
    × ((k : Bytes) → Among k ks ↔ ((lookup k c.entries ≢ none) × (remembered now (m k) ≡ false)))

-- What the cache returns is what the memory says. `Insert` and `Clear` return nothing.
abbrev pub Told : ReplayCache → Memory → Call → Type 0
Told c m (checks orders now agent_id nonce) =
    (check orders now c agent_id nonce).1 ≡ memory_check now m agent_id nonce
Told c m (admits orders now agent_id nonce) =
    (check_and_insert orders now c agent_id nonce).1 ≡ memory_admits now m agent_id nonce
Told c m (inserts orders now agent_id nonce) = Unit
Told c m (sweeps now) = CountsForgotten now c m (evict_expired now c).1
Told c m clears = Unit

-- So it is for each of the calls in turn, each made of what the calls before it have left.
abbrev pub AllTold : ℕ → ReplayCache → Memory → List Call → Type 0
AllTold retention c m [] = Unit
AllTold retention c m (call ∷ calls) =
    Told c m call × AllTold retention (step c call) (memory_step retention m call) calls

-- The reading of the clock, or the one before where there is none.
abbrev pub time_of : ℕ → Call → ℕ
time_of t (checks orders now agent_id nonce) = now
time_of t (admits orders now agent_id nonce) = now
time_of t (inserts orders now agent_id nonce) = now
time_of t (sweeps now) = now
time_of t clears = t

-- The clock does not go back.
abbrev pub Ordered : ℕ → List Call → Type 0
Ordered t [] = Unit
Ordered t (call ∷ calls) = (t ≤ time_of t call) × Ordered (time_of t call) calls

-- The entry is one for which a nonce is refused.
abbrev pub held : ℕ → Option Entry → Bool
held now none = false
held now (some e) = not (is_expired e now)

-- From a time on the cache holds what the memory remembers.
abbrev pub Agrees : ℕ → ReplayCache → Memory → Type 0
Agrees t c m =
    (q : Bytes) (now : ℕ) → t ≤ now → held now (lookup q c.entries) ≡ remembered now (m q)
