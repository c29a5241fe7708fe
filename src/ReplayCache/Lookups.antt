-- ===== src/ReplayCache/Lookups.antt =====
-- The map operations of the replay cache on each other.
use aafp_go.Base.{
  ℕ, ◌+◌, ◌≤◌, ◌<◌, ◌≡◌, ◌≢◌, ◌∙◌, refl, true, false, if◌then◌else◌, Bytes, bytes_eq, bytes_eq_iff,
  List, [], ◌∷◌, length, All, none, some, arith, Bool-cases, inl, inr,
}
use aafp_go.ReplayCache.{Entry, Entries, lookup, delete, store, delete_all, is_expired, unexpired}

pub bytes_eq_refl : (a : Bytes) → bytes_eq a a ≡ true
bytes_eq_refl a = (bytes_eq_iff a a).1 refl

-- `k` against `q` by way of a key `j` in between.
pub bytes_eq_left : (j k q : Bytes) → bytes_eq j k ≡ true → bytes_eq j q ≡ bytes_eq k q
bytes_eq_left j k q h = let same : j ≡ k = (bytes_eq_iff j k).0 h in rw same

bytes_eq_right : (j k q : Bytes) → bytes_eq k q ≡ true → bytes_eq j k ≡ bytes_eq j q
bytes_eq_right j k q h = let same : k ≡ q = (bytes_eq_iff k q).0 h in rw same

pub lookup-delete :
    (q k : Bytes) (es : Entries)
    → lookup q (delete k es) ≡ (if bytes_eq k q then none else lookup q es)
unfolding lookup delete
lookup-delete q k [] = ground arith
lookup-delete q k ((j, e) ∷ es) =
    ground (arith, lookup-delete q k es, bytes_eq_left j k q, bytes_eq_right j k q)

pub lookup-store :
    (q k : Bytes) (e : Entry) (es : Entries)
    → lookup q (store k e es) ≡ (if bytes_eq k q then some e else lookup q es)
unfolding lookup store
lookup-store q k e [] = refl
lookup-store q k e ((j, d) ∷ es) =
    ground (arith, lookup-store q k e es, bytes_eq_left j k q, bytes_eq_right j k q)

pub length-delete-le : (k : Bytes) (es : Entries) → length (delete k es) ≤ length es
unfolding delete
length-delete-le k [] = omega arith
length-delete-le k ((j, e) ∷ es) = ground (arith, length-delete-le k es)

pub length-delete-lt :
    (k : Bytes) (es : Entries) → lookup k es ≢ none → length (delete k es) < length es
unfolding delete lookup
length-delete-lt k [] h = absurd (h refl)
length-delete-lt k ((j, e) ∷ es) h = ground (arith, length-delete-le k es, length-delete-lt k es)

pub length-store-le : (k : Bytes) (e : Entry) (es : Entries) → length (store k e es) ≤ length es + 1
unfolding store
length-store-le k e [] = omega arith
length-store-le k e ((j, d) ∷ es) = ground (arith, length-store-le k e es)

pub length-store_found :
    (k : Bytes) (e : Entry) (es : Entries) → lookup k es ≢ none → length (store k e es) ≡ length es
unfolding store lookup
length-store_found k e [] h = absurd (h refl)
length-store_found k e ((j, d) ∷ es) h = ground (arith, length-store_found k e es)

pub length-delete_all-le : (ks : List Bytes) (es : Entries) → length (delete_all ks es) ≤ length es
length-delete_all-le [] es = omega arith
length-delete_all-le (k ∷ ks) es =
    omega (arith, length-delete_all-le ks (delete k es), length-delete-le k es)

pub lookup-delete_all :
    (q : Bytes) (ks : List Bytes) (es : Entries)
    → All (λ k. bytes_eq k q ≡ false) ks
    → lookup q (delete_all ks es) ≡ lookup q es
lookup-delete_all q [] es h = refl
lookup-delete_all q (k ∷ ks) es (p, h) =
    lookup-delete_all q ks (delete k es) h ∙ (lookup-delete q k es ∙ rw p)

-- What holds of every entry survives a deletion, and a write of an entry of which it holds.
module _ {κ} (P : Bytes × Entry → Type κ) where
  pub All-delete : (k : Bytes) (es : Entries) → All P es → All P (delete k es)
  unfolding delete
  All-delete k [] h = tt
  All-delete k ((j, e) ∷ es) (p, h) = elim (Bool-cases (bytes_eq j k)) [
    | inl gone ↦ rw gone (All-delete k es h)
    | inr stays ↦ rw stays (p, All-delete k es h)
  ]

  pub All-delete_all : (ks : List Bytes) (es : Entries) → All P es → All P (delete_all ks es)
  All-delete_all [] es h = h
  All-delete_all (k ∷ ks) es h = All-delete_all ks (delete k es) (All-delete k es h)

  pub All-store :
      (k : Bytes) (e : Entry) (es : Entries) → P (k, e) → All P es → All P (store k e es)
  unfolding store
  All-store k e [] p h = (p, tt)
  All-store k e ((j, d) ∷ es) p (q, h) = elim (Bool-cases (bytes_eq j k)) [
    | inl here ↦ rw here (p, h)
    | inr other ↦ rw other (q, All-store k e es p h)
  ]

  pub All-unexpired : (now : ℕ) (es : Entries) → All P es → All P (unexpired now es)
  All-unexpired now [] h = tt
  All-unexpired now ((j, e) ∷ es) (p, h) = elim (Bool-cases (is_expired e now)) [
    | inl old ↦ rw old (All-unexpired now es h)
    | inr live ↦ rw live (p, All-unexpired now es h)
  ]
