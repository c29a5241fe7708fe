-- ===== src/ReplayCache.antt =====
-- replaycache/replaycache.go: the nonces seen, each with its expiry, and what is evicted.
-- The map is an association list, whose order means nothing: the order in which `range` visits it is
-- an argument. Times and durations are nanoseconds, and each operation takes the reading of the clock
-- that the code makes. An operation holds the lock from its reading of the map to its last write, so
-- it is one step.
pub mod Lookups
pub mod Orders
pub mod Held
pub mod Grows
pub mod Evict
pub mod Bound
pub mod Replay
pub mod Sweep
pub mod Fresh
pub mod Checker
pub mod Distinct
pub mod Memory
mod Runs
use aafp_go.Base.{
  ℕ, zero, suc, ◌+◌, ◌-◌, ◌*◌, ◌/◌, Bool, true, false, not, ltb, leb, ◌==◌, ◌||◌, ◌&&◌,
  if◌then◌else◌, Bytes, bytes_eq, List, [], ◌∷◌, ◌++◌, length, take, Option, none, some, Result, ok,
  err,
}

abbrev pub default_retention : ℕ
default_retention = 300_000_000_000

abbrev pub min_retention : ℕ
min_retention = 60_000_000_000

abbrev pub max_retention : ℕ
max_retention = 3_600_000_000_000

abbrev pub default_max_entries : ℕ
default_max_entries = 100_000

abbrev pub min_max_entries : ℕ
min_max_entries = 1_000

abbrev pub max_max_entries : ℕ
max_max_entries = 10_000_000

abbrev pub nonce_size : ℕ
nonce_size = 32

abbrev pub agent_id_size : ℕ
agent_id_size = 32

-- `nonce_length` is the error of `CheckAndInsert` on a nonce that is not 32 bytes long.
pub data CacheError : Type 0 where
  nonce_reuse retention_out_of_range max_entries_out_of_range nonce_length : CacheError

pub record Entry : Type 0 where
  pub expires_at : ℕ
  pub last_accessed : ℕ

abbrev pub is_expired : Entry → ℕ → Bool
is_expired e now = leb e.expires_at now

-- `copy` into an array of `n` zeros.
unfoldable pub copied : ℕ → Bytes → Bytes
copied zero bs = []
copied (suc n) [] = 0 ∷ copied n []
copied (suc n) (b ∷ bs) = b ∷ copied n bs

unfoldable pub make_key : Bytes → Bytes → Bytes
make_key agent_id nonce = copied agent_id_size agent_id ++ copied nonce_size nonce

abbrev pub Entries : Type 0
Entries = List (Bytes × Entry)

-- `entries[key]`, `delete(entries, key)` and `entries[key] = e`.
pub lookup : Bytes → Entries → Option Entry
lookup key [] = none
lookup key ((k, e) ∷ es) = if bytes_eq k key then some e else lookup key es

pub delete : Bytes → Entries → Entries
delete key [] = []
delete key ((k, e) ∷ es) =
    let rest = delete key es in if bytes_eq k key then rest else (k, e) ∷ rest

pub store : Bytes → Entry → Entries → Entries
store key e [] = (key, e) ∷ []
store key e ((k, d) ∷ es) = if bytes_eq k key then (key, e) ∷ es else (k, d) ∷ store key e es

pub record ReplayCache : Type 0 where
  pub entries : Entries
  pub retention : ℕ
  pub max_entries : ℕ

unfoldable pub new : ReplayCache
new = record { entries = []; retention = default_retention; max_entries = default_max_entries }

unfoldable pub new_with_params_unchecked : ℕ → ℕ → ReplayCache
new_with_params_unchecked retention max_entries = record {
  entries = [];
  retention = retention;
  max_entries = max_entries;
}

unfoldable pub new_with_params : ℕ → ℕ → Result CacheError ReplayCache
new_with_params retention max_entries =
    if ltb retention min_retention || ltb max_retention retention
    then err retention_out_of_range
    else if ltb max_entries min_max_entries || ltb max_max_entries max_entries
    then err max_entries_out_of_range
    else ok (record { entries = []; retention = retention; max_entries = max_entries })

-- The capacity only pre-allocates.
unfoldable pub new_with_capacity : ℕ → ℕ → ℕ → Result CacheError ReplayCache
unfolding new_with_params
new_with_capacity retention max_entries capacity = new_with_params retention max_entries

unfoldable pub len : ReplayCache → ℕ
len c = length c.entries

unfoldable pub is_empty : ReplayCache → Bool
is_empty c = length c.entries == 0

-- The order in which a `range` loop visits the map.
abbrev pub Order : Type 0
Order = Entries → Entries

-- The orders of the loop in `lazyEvict` and of the two in `evictLRU`.
pub record RangeOrders : Type 0 where
  pub lazy : Order
  pub expired : Order
  pub lru : Order

abbrev pub batch_size : ℕ
batch_size = 64

abbrev pub expired_keys : ℕ → Entries → List Bytes
expired_keys now [] = []
expired_keys now ((k, e) ∷ es) =
    let rest = expired_keys now es in if is_expired e now then k ∷ rest else rest

abbrev pub delete_all : List Bytes → Entries → Entries
delete_all [] es = es
delete_all (k ∷ ks) es = delete_all ks (delete k es)

unfoldable pub lazy_evict : Order → ℕ → ReplayCache → ReplayCache
lazy_evict order now c = if leb (length c.entries) (c.max_entries / 2) then c else record c {
  entries = delete_all (expired_keys now (take batch_size (order c.entries))) c.entries;
}

abbrev pub first_expired : ℕ → Entries → Option Bytes
first_expired now [] = none
first_expired now ((k, e) ∷ es) = if is_expired e now then some k else first_expired now es

-- The loop with `lruKey` and `lruTime`, once `hasLRU` is set.
abbrev pub oldest_from : Bytes → ℕ → Entries → Bytes
oldest_from key time [] = key
oldest_from key time ((k, e) ∷ es) =
    oldest_from (if ltb e.last_accessed time then k else key)
      (if ltb e.last_accessed time then e.last_accessed else time) es

abbrev pub oldest : Entries → Option Bytes
oldest [] = none
oldest ((k, e) ∷ es) = some (oldest_from k e.last_accessed es)

-- The entry that `evictLRU` deletes.
unfoldable pub victim : RangeOrders → ℕ → Entries → Option Bytes
victim orders now es = elim (first_expired now (orders.expired es)) [
  | some k ↦ some k
  | none ↦ oldest (orders.lru es)
]

unfoldable pub evict_lru : RangeOrders → ℕ → ReplayCache → ReplayCache
unfolding victim
evict_lru orders now c = elim (victim orders now c.entries) [
  | some k ↦ record c { entries = delete k c.entries }
  | none ↦ c
]

-- The new entry of `CheckAndInsert` and `Insert`.
abbrev pub fresh : ReplayCache → ℕ → Entry
fresh c now = record { expires_at = now + c.retention; last_accessed = now }

pub check_found : ℕ → Bytes → ReplayCache → Option Entry → ReplayCache × Bool
check_found now key c none = (c, false)
check_found now key c (some e) =
    if is_expired e now
    then (record c { entries = delete key c.entries }, false)
    else (record c { entries = store key (record e { last_accessed = now }) c.entries }, true)

unfoldable pub check : RangeOrders → ℕ → ReplayCache → Bytes → Bytes → ReplayCache × Bool
unfolding lazy_evict check_found lookup
check orders now c agent_id nonce =
    let key = make_key agent_id nonce in
    let c' = lazy_evict orders.lazy now c in
    if not (length nonce == nonce_size)
    then (c, false)
    else check_found now key c' (lookup key c'.entries)

-- `evictLRU` where the map is full, and the write.
make_room : RangeOrders → ℕ → ReplayCache → ReplayCache
unfolding evict_lru
make_room orders now c = if leb c.max_entries (length c.entries) then evict_lru orders now c else c

write : ℕ → Bytes → ReplayCache → ReplayCache
write now key c = record c { entries = store key (fresh c now) c.entries }

pub check_and_insert_found :
    RangeOrders → ℕ → Bytes → ReplayCache → Option Entry → ReplayCache × Option CacheError
check_and_insert_found orders now key c none = (write now key (make_room orders now c), none)
check_and_insert_found orders now key c (some e) =
    if is_expired e now
    then (write now key (make_room orders now (record c { entries = delete key c.entries })), none)
    else (c, some nonce_reuse)

unfoldable pub check_and_insert :
    RangeOrders → ℕ → ReplayCache → Bytes → Bytes → ReplayCache × Option CacheError
unfolding lazy_evict check_and_insert_found make_room write lookup
check_and_insert orders now c agent_id nonce =
    let key = make_key agent_id nonce in
    let c' = lazy_evict orders.lazy now c in
    if not (length nonce == nonce_size)
    then (c, some nonce_length)
    else check_and_insert_found orders now key c' (lookup key c'.entries)

pub insert_found : RangeOrders → ℕ → Bytes → ReplayCache → Option Entry → ReplayCache
insert_found orders now key c none = write now key (make_room orders now c)
insert_found orders now key c (some e) = write now key c

unfoldable pub insert : RangeOrders → ℕ → ReplayCache → Bytes → Bytes → ReplayCache
unfolding lazy_evict insert_found make_room write lookup
insert orders now c agent_id nonce =
    let key = make_key agent_id nonce in
    let c' = lazy_evict orders.lazy now c in
    if not (length nonce == nonce_size)
    then c
    else insert_found orders now key c' (lookup key c'.entries)

-- A Go map may lose entries while it is ranged over: those deleted are not visited again.
abbrev pub unexpired : ℕ → Entries → Entries
unexpired now [] = []
unexpired now ((k, e) ∷ es) =
    let rest = unexpired now es in if is_expired e now then rest else (k, e) ∷ rest

unfoldable pub evict_expired : ℕ → ReplayCache → ReplayCache × ℕ
evict_expired now c = (
  record c { entries = unexpired now c.entries },
  length c.entries - length (unexpired now c.entries),
)

unfoldable pub clear : ReplayCache → ReplayCache
clear c = record c { entries = [] }
