-- ===== src/ReplayCache/Memory/Refines.antt =====
-- The cache against its memory, call by call.
use aafp_go.Base.{
  ℕ, ◌+◌, ◌≤◌, ◌<◌, ◌≡◌, refl, sym, ap, ◌∙◌, true, false, not, Bytes, bytes_eq, bytes_eq_iff,
  length, Option, none, some, arith, Bool-cases, inl, inr,
}
use aafp_go.ReplayCache.{
  Entry, RangeOrders, ReplayCache, is_expired, lookup, delete, store, make_room, write, fresh,
  check_found, check_and_insert_found, insert_found,
}
use aafp_go.ReplayCache.Lookups.{lookup-store, length-delete-le}
use aafp_go.ReplayCache.Memory.{Memory, remembered, remember, held, Agrees, admit}
use aafp_go.ReplayCache.Memory.Dead.{delete_dead}

-- A write, against the memory's.
write-Agrees :
    (now : ℕ) (key : Bytes) (c : ReplayCache) (m : Memory)
    → Agrees now c m
    → Agrees now (write now key c) (remember key (now + c.retention) m)
unfolding write
write-Agrees now key c m h q t late = elim (Bool-cases (bytes_eq key q)) [
  | inl same ↦ rw (lookup-store q key (fresh c now) c.entries) (rw same refl)
  | inr other ↦ rw (lookup-store q key (fresh c now) c.entries) (rw other (h q t late))
]

-- With room, nothing is evicted.
make_room-same :
    (orders : RangeOrders) (now : ℕ) (c : ReplayCache)
    → length c.entries < c.max_entries
    → make_room orders now c ≡ c
unfolding make_room
make_room-same orders now c room = ground (arith, room)

dead_later : (e : Entry) (now t : ℕ) → is_expired e now ≡ true → now ≤ t → held t (some e) ≡ false
dead_later e now t old late = ground (arith, old, late)

new_entry-Agrees :
    (orders : RangeOrders) (now : ℕ) (key : Bytes) (c : ReplayCache) (m : Memory)
    → Agrees now c m
    → length c.entries < c.max_entries
    → Agrees now (write now key (make_room orders now c)) (remember key (now + c.retention) m)
new_entry-Agrees orders now key c m h room =
    rw (make_room-same orders now c room) (write-Agrees now key c m h)

module _ (orders : RangeOrders) (now : ℕ) (key : Bytes) (c : ReplayCache) (m : Memory)
    (h : Agrees now c m) (room : length c.entries < c.max_entries) where
  -- The entry found tells what the memory remembers.
  found_held :
      (o : Option Entry) (t : ℕ)
      → lookup key c.entries ≡ o
      → now ≤ t
      → held t o ≡ remembered t (m key)
  found_held o t f late = ap (held t) (sym f) ∙ h key t late

  delete-Agrees :
      (e : Entry)
      → lookup key c.entries ≡ some e
      → is_expired e now ≡ true
      → Agrees now (record c { entries = delete key c.entries }) m
  delete-Agrees e f old q t late =
      delete_dead t q key c.entries (ap (held t) f ∙ dead_later e now t old late) ∙ h q t late

  touch-Agrees :
      (e : Entry)
      → lookup key c.entries ≡ some e
      → Agrees now (record c { entries = store key (record e { last_accessed = now }) c.entries }) m
  touch-Agrees e f q t late = elim (Bool-cases (bytes_eq key q)) [
    | inl same ↦
        let equal : key ≡ q = (bytes_eq_iff key q).0 same in
        rw (lookup-store q key (record e { last_accessed = now }) c.entries)
          (rw same (found_held (some e) t f late ∙ ap (λ k. remembered t (m k)) equal))
    | inr other ↦
        rw (lookup-store q key (record e { last_accessed = now }) c.entries) (rw other (h q t late))
  ]

  pub check_found-Agrees :
      (o : Option Entry)
      → lookup key c.entries ≡ o
      → ((check_found now key c o).1 ≡ remembered now (m key))
        × Agrees now (check_found now key c o).0 m
  unfolding check_found
  check_found-Agrees none f = (found_held none now f (omega arith), h)
  check_found-Agrees (some e) f =
      let known = found_held (some e) now f (omega arith) in
      elim (Bool-cases (is_expired e now)) [
        | inl old ↦
            rw old (sym (dead_later e now now old (omega arith)) ∙ known, delete-Agrees e f old)
        | inr live ↦ rw live (sym (ap not live) ∙ known, touch-Agrees e f)
      ]

  pub check_and_insert_found-Agrees :
      (o : Option Entry)
      → lookup key c.entries ≡ o
      → ((check_and_insert_found orders now key c o).1 ≡ (admit c.retention now key m).1)
        × Agrees now (check_and_insert_found orders now key c o).0 (admit c.retention now key m).0
  unfolding check_and_insert_found
  check_and_insert_found-Agrees none f =
      let forgot : remembered now (m key) ≡ false = sym (found_held none now f (omega arith)) in
      rw forgot (refl, new_entry-Agrees orders now key c m h room)
  check_and_insert_found-Agrees (some e) f =
      let known = found_held (some e) now f (omega arith) in
      elim (Bool-cases (is_expired e now)) [
        | inl old ↦
            let forgot : remembered now (m key) ≡ false =
              sym known ∙ dead_later e now now old (omega arith) in
            let c' : ReplayCache = record c { entries = delete key c.entries } in
            rw (old, forgot)
              (
                refl,
                new_entry-Agrees orders now key c' m (delete-Agrees e f old)
                    (omega (arith, length-delete-le key c.entries)),
              )
        | inr live ↦
            let refused : remembered now (m key) ≡ true = sym known ∙ ap not live in
            rw (live, refused) (refl, h)
      ]

  pub insert_found-Agrees :
      (o : Option Entry)
      → Agrees now (insert_found orders now key c o) (remember key (now + c.retention) m)
  unfolding insert_found
  insert_found-Agrees none = new_entry-Agrees orders now key c m h room
  insert_found-Agrees (some e) = write-Agrees now key c m h
