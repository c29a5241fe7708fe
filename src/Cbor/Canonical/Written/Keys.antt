-- ===== src/Cbor/Canonical/Written/Keys.antt =====
-- Entries with distinct keys: sorted, with other values, and one behind the others.
use aafp_go.Base.{◌≢◌, sym, Bool, Bool-cases, inl, inr, List, [], ◌∷◌, ◌++◌, All}
use aafp_go.Cbor.Encode.{insert, sort_entries}
use aafp_go.Cbor.Encode.Unordered.{Distinct}
use aafp_go.Cbor.Decode.RoundTrip.Sorting.{map_values, All-insert, All-sort_entries}

-- Sorting keeps keys distinct.
module _ {ℓ κ} {K : Type ℓ} {V : Type κ} (less : K → K → Bool) where
  Distinct-insert :
      (k : K) (v : V) (es : List (K × V))
      → All (λ p. k ≢ p.0) es
      → Distinct es
      → Distinct (insert less (k, v) es)
  Distinct-insert k v [] fresh h = (tt, tt)
  Distinct-insert k v ((j, w) ∷ es) (other, fresh) (q, h) = elim (Bool-cases (less j k)) [
    | inl before ↦ rw before (
      All-insert less (λ p. j ≢ p.0) k v es (λ e. other (sym e)) q,
      Distinct-insert k v es fresh h,
    )
    | inr after ↦ rw after ((other, fresh), (q, h))
  ]

  pub Distinct-sort_entries : (es : List (K × V)) → Distinct es → Distinct (sort_entries less es)
  Distinct-sort_entries [] h = tt
  Distinct-sort_entries ((k, v) ∷ es) (fresh, h) =
      Distinct-insert k v (sort_entries less es) (All-sort_entries less (λ p. k ≢ p.0) es fresh)
        (Distinct-sort_entries es h)

module _ {ℓ κ μ} {K : Type ℓ} {V : Type κ} {W : Type μ} (g : V → W) where
  All-map_values :
      (k : K) (es : List (K × V)) → All (λ p. k ≢ p.0) es → All (λ p. k ≢ p.0) (map_values g es)
  All-map_values k [] h = tt
  All-map_values k ((j, v) ∷ es) (q, h) = (q, All-map_values k es h)

  pub Distinct-map_values : (es : List (K × V)) → Distinct es → Distinct (map_values g es)
  Distinct-map_values [] h = tt
  Distinct-map_values ((k, v) ∷ es) (q, h) = (All-map_values k es q, Distinct-map_values es h)

module _ {ℓ κ} {K : Type ℓ} {V : Type κ} where
  others_differ :
      (j k : K) (v : V) (xs ys : List (K × V)) → All (λ p. j ≢ p.0) (xs ++ ((k, v) ∷ ys)) → j ≢ k
  others_differ j k v [] ys (r, _) = r
  others_differ j k v (x ∷ xs) ys (_, r) = others_differ j k v xs ys r

  -- A key behind the others is none of them.
  pub Distinct-fresh :
      (xs ys : List (K × V)) (k : K) (v : V)
      → Distinct (xs ++ ((k, v) ∷ ys))
      → All (λ p. p.0 ≢ k) xs
  Distinct-fresh [] ys k v h = tt
  Distinct-fresh ((j, w) ∷ xs) ys k v (q, h) =
      (others_differ j k v xs ys q, Distinct-fresh xs ys k v h)
