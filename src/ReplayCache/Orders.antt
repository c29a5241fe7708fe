-- ===== src/ReplayCache/Orders.antt =====
-- What the orders of the `range` loops leave open, and what they do not.
use aafp_go.Base.{
  ℕ, zero, suc, ◌⊎◌, ◌∙◌, ◌≤◌, ◌<◌, ◌≡◌, ◌≢◌, refl, Bytes, [], ◌∷◌, length, take, All, Option, none,
  some, arith, subst, sym, ap, bytes_eq_iff, ltb, Bool-cases, inl, inr,
}
use mathlib.Core.List.Permᴰ
use mathlib.Core.List.{Permᴰ}
use aafp_go.ReplayCache.{
  Entry, Entries, Order, RangeOrders, is_expired, first_expired, oldest_from, oldest, victim,
  lookup,
}

-- A `range` loop visits each entry once.
abbrev pub VisitsOnce : Order → Type 0
VisitsOnce order = (es : Entries) → Permᴰ (order es) es

pub record Fair (orders : RangeOrders) : Type 0 where
  pub lazy : VisitsOnce orders.lazy
  pub expired : VisitsOnce orders.expired
  pub lru : VisitsOnce orders.lru

module _ {κ} (P : Bytes × Entry → Type κ) where
  pub All-perm : {xs ys : Entries} → Permᴰ xs ys → All P ys → All P xs
  All-perm Permᴰ.nil h = tt
  All-perm (Permᴰ.cons e p) (q, h) = (subst P (sym e) q, All-perm p h)
  All-perm (Permᴰ.swap e f) (q, (r, h)) = (subst P (sym e) r, (subst P (sym f) q, h))
  All-perm (Permᴰ.trans p r) h = All-perm p (All-perm r h)

  pub All-take : (n : ℕ) (es : Entries) → All P es → All P (take n es)
  All-take zero es h = tt
  All-take (suc n) [] h = tt
  All-take (suc n) (e ∷ es) (p, h) = (p, All-take n es h)

pub length-perm : {xs ys : Entries} → Permᴰ xs ys → length xs ≡ length ys
length-perm Permᴰ.nil = refl
length-perm (Permᴰ.cons e p) = omega (arith, length-perm p)
length-perm (Permᴰ.swap e f) = refl
length-perm (Permᴰ.trans p r) = omega (arith, length-perm p, length-perm r)

-- An entry of the map.
abbrev pub In : Bytes × Entry → Entries → Type 0
In p [] = ⊥
In p (q ∷ es) = (p ≡ q) ⊎ In p es

pub In-perm : {xs ys : Entries} (p : Bytes × Entry) → Permᴰ xs ys → In p xs → In p ys
In-perm p Permᴰ.nil m = m
In-perm p (Permᴰ.cons e r) (inl here) = inl (here ∙ e)
In-perm p (Permᴰ.cons e r) (inr there) = inr (In-perm p r there)
In-perm p (Permᴰ.swap e f) (inl here) = inr (inl (here ∙ e))
In-perm p (Permᴰ.swap e f) (inr (inl next)) = inl (next ∙ f)
In-perm p (Permᴰ.swap e f) (inr (inr there)) = inr (inr there)
In-perm p (Permᴰ.trans r s) m = In-perm p s (In-perm p r m)

pub In-lookup : (k : Bytes) (e : Entry) (es : Entries) → In (k, e) es → lookup k es ≢ none
unfolding lookup
In-lookup k e [] m h = m
In-lookup k e ((j, d) ∷ es) (inl here) h =
    let same : k ≡ j = ap (λ p. p.0) here in
    let found = (bytes_eq_iff j k).1 (sym same) in ground arith
In-lookup k e ((j, d) ∷ es) (inr there) h = ground (arith, In-lookup k e es there)

pub All-In {κ} :
    (P : Bytes × Entry → Type κ) (p : Bytes × Entry) (es : Entries) → All P es → In p es → P p
All-In P p [] h m = absurd m
All-In P p (q ∷ es) (h, hs) (inl here) = subst P (sym here) h
All-In P p (q ∷ es) (h, hs) (inr there) = All-In P p es hs there

-- The first expired entry, or that there is none.
first_expired-some :
    (now : ℕ) (es : Entries) (k : Bytes)
    → first_expired now es ≡ some k
    → (e : Entry) × In (k, e) es × (e.expires_at ≤ now)
first_expired-some now [] k h = cc
first_expired-some now ((j, e) ∷ es) k h = elim (Bool-cases (is_expired e now)) [
  | inl old ↦
      (e, inl (let same : j ≡ k = ground arith in ap (λ i. (i, e)) (sym same)), ground arith)
  | inr live ↦
      let (d, there, old) = first_expired-some now es k (ground arith) in (d, inr there, old)
]

first_expired-none :
    (now : ℕ) (es : Entries) → first_expired now es ≡ none → All (λ p. now < p.1.expires_at) es
first_expired-none now [] h = tt
first_expired-none now ((j, e) ∷ es) h = elim (Bool-cases (is_expired e now)) [
  | inl old ↦ absurd (ground arith)
  | inr live ↦ (ground arith, first_expired-none now es (ground arith))
]

-- The loop for the oldest keeps the key that it starts with, or finds an older entry.
abbrev Older : Bytes → ℕ → Bytes → Entries → Type 0
Older k t r es =
    ((r ≡ k) × All (λ p. t ≤ p.1.last_accessed) es)
    ⊎ ((d : Entry) × In (r, d) es
        × (d.last_accessed < t)
        × All (λ p. d.last_accessed ≤ p.1.last_accessed) es)

oldest_from-Older :
    (k : Bytes) (t : ℕ) (es : Entries) (r : Bytes) → oldest_from k t es ≡ r → Older k t r es
oldest_from-Older k t [] r h = inl (sym h, tt)
oldest_from-Older k t ((j, d) ∷ es) r h = elim (Bool-cases (ltb d.last_accessed t)) [
  | inl older ↦ elim (oldest_from-Older j d.last_accessed es r (rw older at h)) [
    | inl (same, least) ↦ inr (d, inl (ap (λ i. (i, d)) same), ground arith, (omega arith, least))
    | inr (x, there, lt, least) ↦ inr (x, inr there, ground arith, (omega arith, least))
  ]
  | inr newer ↦ elim (oldest_from-Older k t es r (rw newer at h)) [
    | inl (same, least) ↦ inl (same, (ground arith, least))
    | inr (x, there, lt, least) ↦ inr (x, inr there, lt, (ground arith, least))
  ]
]

oldest_lem :
    (es : Entries) (k : Bytes)
    → oldest es ≡ some k
    → (e : Entry) × In (k, e) es × All (λ p. e.last_accessed ≤ p.1.last_accessed) es
oldest_lem [] k h = cc
oldest_lem ((j, e) ∷ es) k h =
    let found : oldest_from j e.last_accessed es ≡ k = cc in
    elim (oldest_from-Older j e.last_accessed es k found) [
      | inl (same, least) ↦ (e, inl (ap (λ i. (i, e)) same), (omega arith, least))
      | inr (x, there, lt, least) ↦ (x, inr there, (omega arith, least))
    ]

oldest_some : (es : Entries) → oldest es ≡ none → length es ≡ 0
oldest_some [] h = refl
oldest_some (p ∷ es) h = cc

-- The key that `evictLRU` chooses is that of an expired entry if there is one, else of one that was used
-- no later than any.
pub victim_lem :
    (orders : RangeOrders) (now : ℕ) (es : Entries) (k : Bytes)
    → Fair orders
    → victim orders now es ≡ some k
    → (e : Entry) × In (k, e) es
      × ((e.expires_at ≤ now)
          ⊎ (All (λ p. now < p.1.expires_at) es
              × All (λ p. e.last_accessed ≤ p.1.last_accessed) es))
unfolding victim
victim_lem orders now es k fair h = go (first_expired now (orders.expired es)) refl h
  where
    back : Permᴰ es (orders.lru es)
    back = Permᴰ.symm (fair.lru es)

    go :
        (o : Option Bytes)
        → first_expired now (orders.expired es) ≡ o
        → (elim o as (λ _. Option Bytes) [ some k ↦ some k | none ↦ oldest (orders.lru es) ])
          ≡ some k
        → (e : Entry) × In (k, e) es
          × ((e.expires_at ≤ now)
              ⊎ (All (λ p. now < p.1.expires_at) es
                  × All (λ p. e.last_accessed ≤ p.1.last_accessed) es))
    go (some j) found same =
        let (e, there, old) = first_expired-some now (orders.expired es) k (found ∙ same) in
        (e, In-perm (k, e) (fair.expired es) there, inl old)
    go none found same =
        let (e, there, least) = oldest_lem (orders.lru es) k same in
        (
          e,
          In-perm (k, e) (fair.lru es) there,
          inr (
            All-perm (λ p. now < p.1.expires_at) (Permᴰ.symm (fair.expired es))
                (first_expired-none now (orders.expired es) found),
            All-perm (λ p. e.last_accessed ≤ p.1.last_accessed) back least,
          ),
        )

-- A map that is not empty has a victim.
pub victim_exists :
    (orders : RangeOrders) (now : ℕ) (es : Entries)
    → Fair orders
    → 1 ≤ length es
    → victim orders now es ≢ none
unfolding victim
victim_exists orders now es fair room h =
    let size = length-perm (fair.lru es) in ground (arith, oldest_some (orders.lru es))
