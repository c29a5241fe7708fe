-- ===== src/ReplayCache/Checker.antt =====
-- replaycache/handshake_integration.go: the checks of the nonces in hellos, and what comes of a check
-- and an insertion that are two calls.
use aafp_go.Base.{
  ℕ, ◌≡◌, ◌∙◌, refl, false, not, ◌==◌, if◌then◌else◌, Bytes, length, Option, none, some, arith,
  Bool-cases, inl, inr,
}
use aafp_go.ReplayCache.{
  RangeOrders, ReplayCache, CacheError, nonce_reuse, nonce_length, nonce_size, make_key, lookup,
  check, check_found, lazy_evict, check_and_insert, insert, is_expired, Entry,
}
use aafp_go.ReplayCache.Lookups.{lookup-delete, bytes_eq_refl}
use aafp_go.ReplayCache.Fresh.{Absent, lazy_evict-Absent}

pub record HandshakeReplayChecker : Type 0 where
  pub cache : ReplayCache

unfoldable pub new_handshake_replay_checker : ReplayCache → HandshakeReplayChecker
new_handshake_replay_checker cache = record { cache = cache }

-- The result of a check: the checker, and the error or `none`.
abbrev pub Checked : Type 0
Checked = HandshakeReplayChecker × Option CacheError

unfoldable pub check_client_hello :
    RangeOrders → ℕ → HandshakeReplayChecker → Bytes → Bytes → Checked
check_client_hello orders now h agent_id client_nonce =
    let (cache, seen) = check orders now h.cache agent_id client_nonce in
    if not (length client_nonce == nonce_size)
    then (h, some nonce_length)
    else (record { cache = cache }, (if seen then some nonce_reuse else none))

unfoldable pub insert_client_hello :
    RangeOrders → ℕ → HandshakeReplayChecker → Bytes → Bytes → HandshakeReplayChecker
insert_client_hello orders now h agent_id client_nonce =
    if not (length client_nonce == nonce_size)
    then h
    else record { cache = insert orders now h.cache agent_id client_nonce }

unfoldable pub check_and_insert_client_hello :
    RangeOrders → ℕ → HandshakeReplayChecker → Bytes → Bytes → Checked
check_and_insert_client_hello orders now h agent_id client_nonce =
    let (cache, error) = check_and_insert orders now h.cache agent_id client_nonce in
    if not (length client_nonce == nonce_size)
    then (h, some nonce_length)
    else (record { cache = cache }, error)

unfoldable pub check_server_hello :
    RangeOrders → ℕ → HandshakeReplayChecker → Bytes → Bytes → Checked
check_server_hello orders now h agent_id server_nonce =
    let (cache, seen) = check orders now h.cache agent_id server_nonce in
    if not (length server_nonce == nonce_size)
    then (h, some nonce_length)
    else (record { cache = cache }, (if seen then some nonce_reuse else none))

unfoldable pub insert_server_hello :
    RangeOrders → ℕ → HandshakeReplayChecker → Bytes → Bytes → HandshakeReplayChecker
insert_server_hello orders now h agent_id server_nonce =
    if not (length server_nonce == nonce_size)
    then h
    else record { cache = insert orders now h.cache agent_id server_nonce }

unfoldable pub check_and_insert_server_hello :
    RangeOrders → ℕ → HandshakeReplayChecker → Bytes → Bytes → Checked
check_and_insert_server_hello orders now h agent_id server_nonce =
    let (cache, error) = check_and_insert orders now h.cache agent_id server_nonce in
    if not (length server_nonce == nonce_size)
    then (h, some nonce_length)
    else (record { cache = cache }, error)

-- What a check that passes leaves: nothing under the nonce's key.
passed-Absent :
    (key : Bytes) (now : ℕ) (c : ReplayCache) (o : Option Entry)
    → lookup key c.entries ≡ o
    → (check_found now key c o).1 ≡ false
    → Absent key (check_found now key c o).0.entries
unfolding check_found
passed-Absent key now c none f h = f
passed-Absent key now c (some e) f h = elim (Bool-cases (is_expired e now)) [
  | inl old ↦
      let self = bytes_eq_refl key in rw old (lookup-delete key key c.entries ∙ rw self refl)
  | inr live ↦ absurd (ground arith)
]

Absent-unseen :
    (orders : RangeOrders) (now : ℕ) (c : ReplayCache) (agent_id nonce : Bytes)
    → Absent (make_key agent_id nonce) c.entries
    → (check orders now c agent_id nonce).1 ≡ false
unfolding check check_found
Absent-unseen orders now c agent_id nonce h =
    let gone = lazy_evict-Absent (make_key agent_id nonce) orders now c h in ground arith

module _ (orders : RangeOrders) (now : ℕ) (c : ReplayCache) (agent_id nonce : Bytes) where
  check_sized :
      not (length nonce == nonce_size) ≡ false
      → check orders now c agent_id nonce
        ≡ check_found now
            (make_key agent_id nonce)
            (lazy_evict orders.lazy now c)
            (lookup (make_key agent_id nonce) (lazy_evict orders.lazy now c).entries)
  unfolding check
  check_sized good = rw good refl

  unseen-Absent :
      not (length nonce == nonce_size) ≡ false
      → (check orders now c agent_id nonce).1 ≡ false
      → Absent (make_key agent_id nonce) (check orders now c agent_id nonce).0.entries
  unseen-Absent good h =
      let sized = check_sized good in
      rw sized (
        passed-Absent (make_key agent_id nonce) now (lazy_evict orders.lazy now c) _ refl
          (rw sized at h))

-- What `CheckClientHello` passes is of the right length and unseen, and the checker is left with the
-- cache of the check.
passed_lem :
    (h : HandshakeReplayChecker) (orders : RangeOrders) (now : ℕ) (agent_id nonce : Bytes)
    → (check_client_hello orders now h agent_id nonce).1 ≡ none
    → (not (length nonce == nonce_size) ≡ false)
      × ((check orders now h.cache agent_id nonce).1 ≡ false)
      × ((check_client_hello orders now h agent_id nonce).0.cache
          ≡ (check orders now h.cache agent_id nonce).0)
unfolding check_client_hello
passed_lem h orders now agent_id nonce passed =
    elim (Bool-cases (not (length nonce == nonce_size))) [
      | inl bad ↦ absurd (ground arith)
      | inr good ↦ elim (Bool-cases (check orders now h.cache agent_id nonce).1) [
        | inl seen ↦ absurd (ground arith)
        | inr unseen ↦ (good, unseen, rw good refl)
      ]
    ]

unseen_passed :
    (h : HandshakeReplayChecker) (orders : RangeOrders) (now : ℕ) (agent_id nonce : Bytes)
    → not (length nonce == nonce_size) ≡ false
    → (check orders now h.cache agent_id nonce).1 ≡ false
    → (check_client_hello orders now h agent_id nonce).1 ≡ none
unfolding check_client_hello
unseen_passed h orders now agent_id nonce good unseen = rw (good, unseen) refl

-- A hello's nonce that `CheckClientHello` passes is passed again to any other connection that checks
-- it, at any later reading of the clock, before the first inserts it: the check and the insertion as
-- two calls are not atomic, and both connections go on.
pub check_client_hello-twice :
    (h : HandshakeReplayChecker) (orders orders' : RangeOrders) (now later : ℕ)
    (agent_id nonce : Bytes)
    → (check_client_hello orders now h agent_id nonce).1 ≡ none
    → (check_client_hello orders' later
        (check_client_hello orders now h agent_id nonce).0
        agent_id
        nonce).1
      ≡ none
check_client_hello-twice h orders orders' now later agent_id nonce passed =
    let (good, unseen, left) = passed_lem h orders now agent_id nonce passed in
    let gone = unseen-Absent orders now h.cache agent_id nonce good unseen in
    let after = (check_client_hello orders now h agent_id nonce).0 in
    unseen_passed after orders' later agent_id nonce good
      (Absent-unseen orders' later after.cache agent_id nonce (rw left gone))
