-- ===== src/Cbor/Decode/RoundTrip/Sorting.antt =====
-- Sorting entries by their keys, with values of different kinds beside them.
use mathlib.Core.List.Permᴰ
use mathlib.Core.List.{Permᴰ}
use aafp_go.Base.{
  suc, ◌≡◌, refl, ap, ◌∙◌, Bool, true, false, Bool-cases, inl, inr, List, [], ◌∷◌, length, All,
}
use aafp_go.Cbor.Encode.{insert, sort_entries}

module _ {ℓ κ μ} {K : Type ℓ} {V : Type κ} {W : Type μ} (f : V → W) where
  abbrev pub map_values : List (K × V) → List (K × W)
  map_values [] = []
  map_values ((k, v) ∷ es) = (k, f v) ∷ map_values es

module _ {ℓ κ μ} {K : Type ℓ} {V : Type κ} {W : Type μ} (f : V → W) (less : K → K → Bool) where
  insert-map_values :
      (k : K) (v : V) (es : List (K × V))
      → insert less (k, f v) (map_values f es) ≡ map_values f (insert less (k, v) es)
  insert-map_values k v [] = refl
  insert-map_values k v ((j, w) ∷ es) = elim (Bool-cases (less j k)) [
    | inl before ↦ rw before (ap (λ t. (j, f w) ∷ t) (insert-map_values k v es))
    | inr after ↦ rw after
  ]

  pub sort_entries-map_values :
      (es : List (K × V))
      → sort_entries less (map_values f es) ≡ map_values f (sort_entries less es)
  sort_entries-map_values [] = refl
  sort_entries-map_values ((k, v) ∷ es) =
      ap (insert less (k, f v)) (sort_entries-map_values es)
      ∙ insert-map_values k v (sort_entries less es)

module _ {ℓ κ μ} {K : Type ℓ} {V : Type κ} (less : K → K → Bool) (P : K × V → Type μ) where
  pub All-insert :
      (k : K) (v : V) (es : List (K × V)) → P (k, v) → All P es → All P (insert less (k, v) es)
  All-insert k v [] p h = (p, h)
  All-insert k v ((j, w) ∷ es) p (q, h) = elim (Bool-cases (less j k)) [
    | inl before ↦ rw before (q, All-insert k v es p h)
    | inr after ↦ rw after (p, (q, h))
  ]

  pub All-sort_entries : (es : List (K × V)) → All P es → All P (sort_entries less es)
  All-sort_entries [] h = h
  All-sort_entries ((k, v) ∷ es) (p, h) =
      All-insert k v (sort_entries less es) p (All-sort_entries es h)

module _ {ℓ κ} {K : Type ℓ} {V : Type κ} (less : K → K → Bool) where
  length-insert :
      (k : K) (v : V) (es : List (K × V)) → length (insert less (k, v) es) ≡ suc (length es)
  length-insert k v [] = refl
  length-insert k v ((j, w) ∷ es) = elim (Bool-cases (less j k)) [
    | inl before ↦ rw before (ap suc (length-insert k v es))
    | inr after ↦ rw after
  ]

  pub length-sort_entries : (es : List (K × V)) → length (sort_entries less es) ≡ length es
  length-sort_entries [] = refl
  length-sort_entries ((k, v) ∷ es) =
      length-insert k v (sort_entries less es) ∙ ap suc (length-sort_entries es)

  insert-perm : (k : K) (v : V) (es : List (K × V)) → Permᴰ (insert less (k, v) es) ((k, v) ∷ es)
  insert-perm k v [] = Permᴰ.refl ((k, v) ∷ [])
  insert-perm k v ((j, w) ∷ es) = elim (Bool-cases (less j k)) [
    | inl before ↦
        rw before (Permᴰ.trans (Permᴰ.cons refl (insert-perm k v es)) (Permᴰ.swap refl refl))
    | inr after ↦ rw after (Permᴰ.refl ((k, v) ∷ (j, w) ∷ es))
  ]

  pub sort_entries-permutes : (es : List (K × V)) → Permᴰ (sort_entries less es) es
  sort_entries-permutes [] = Permᴰ.nil
  sort_entries-permutes ((k, v) ∷ es) =
      Permᴰ.trans (insert-perm k v (sort_entries less es))
        (Permᴰ.cons refl (sort_entries-permutes es))

-- Each entry's key stands before those of the entries behind it.
module _ {ℓ κ μ} {K : Type ℓ} {V : Type κ} (Before : K → K → Type μ) where
  abbrev pub Ascends : List (K × V) → Type (ℓ ⊔ κ ⊔ μ)
  Ascends [] = Unit
  Ascends ((k, v) ∷ es) = All (λ p. Before k p.0) es × Ascends es

-- Where the test tells the order, on keys of a kind, sorting puts the entries in that order.
module _ {ℓ κ μ ν} {K : Type ℓ} {V : Type κ} (less : K → K → Bool) (Before : K → K → Type μ)
    (Kind : K → Type ν)
    (tells : (a b : K)
      → Kind a
      → Kind b
      → (less a b ≡ true → Before a b) × (less a b ≡ false → Before b a))
    (trans : (a b c : K) → Before a b → Before b c → Before a c) where
  All-before :
      (j k : K) (es : List (K × V))
      → Before j k
      → All (λ p. Before k p.0) es
      → All (λ p. Before j p.0) es
  All-before j k [] b h = tt
  All-before j k ((i, v) ∷ es) b (q, h) = (trans j k i b q, All-before j k es b h)

  insert-Ascends :
      (k : K) (v : V) (es : List (K × V))
      → Kind k
      → All (λ p. Kind p.0) es
      → Ascends Before es
      → Ascends Before (insert less (k, v) es)
  insert-Ascends k v [] d ds h = (tt, tt)
  insert-Ascends k v ((j, w) ∷ es) d (dj, ds) (q, h) = elim (Bool-cases (less j k)) [
    | inl before ↦ rw before (
      All-insert less (λ p. Before j p.0) k v es ((tells j k dj d).0 before) q,
      insert-Ascends k v es d ds h,
    )
    | inr after ↦
        let first = (tells j k dj d).1 after in
        rw after ((first, All-before k j es first q), (q, h))
  ]

  pub sort_entries-Ascends :
      (es : List (K × V)) → All (λ p. Kind p.0) es → Ascends Before (sort_entries less es)
  sort_entries-Ascends [] ds = tt
  sort_entries-Ascends ((k, v) ∷ es) (d, ds) =
      insert-Ascends k v (sort_entries less es) d (All-sort_entries less (λ p. Kind p.0) es ds)
        (sort_entries-Ascends es ds)
