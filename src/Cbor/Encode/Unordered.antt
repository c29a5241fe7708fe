-- ===== src/Cbor/Encode/Unordered.antt =====
-- Sorting forgets the order of entries with distinct keys.
use mathlib.Core.List.{Permᴰ}
use aafp_go.Base.{
  ◌≡◌, ◌≢◌, ◌⊎◌, inl, inr, refl, sym, ap, subst, ◌∙◌, Bool, true, false, Bool-cases, arith, Bytes,
  List, [], ◌∷◌, All,
}
use aafp_go.Cbor.Encode.{insert, sort_entries, bytes_lt, str_key_less}

bytes_lt_trans : (a b c : Bytes) → bytes_lt a b ≡ true → bytes_lt b c ≡ true → bytes_lt a c ≡ true
bytes_lt_trans a b [] h h' = cc
bytes_lt_trans a [] (z ∷ c) h h' = cc
bytes_lt_trans [] (y ∷ b) (z ∷ c) h h' = refl
bytes_lt_trans (x ∷ a) (y ∷ b) (z ∷ c) h h' = ground (arith, bytes_lt_trans a b c)

bytes_lt_total : (a b : Bytes) → a ≢ b → (bytes_lt a b ≡ true) ⊎ (bytes_lt b a ≡ true)
bytes_lt_total [] [] h = absurd (h refl)
bytes_lt_total [] (y ∷ b) h = inl refl
bytes_lt_total (x ∷ a) [] h = inr refl
bytes_lt_total (x ∷ a) (y ∷ b) h = ground (arith, bytes_lt_total a b)

pub str_key_less_trans :
    (a b c : Bytes) → str_key_less a b ≡ true → str_key_less b c ≡ true → str_key_less a c ≡ true
unfolding str_key_less
str_key_less_trans a b c h h' = ground (arith, bytes_lt_trans a b c)

pub str_key_less_total :
    (a b : Bytes) → a ≢ b → (str_key_less a b ≡ true) ⊎ (str_key_less b a ≡ true)
unfolding str_key_less
str_key_less_total a b h = ground (arith, bytes_lt_total a b h)

-- An order on keys.
pub record IsOrder {ℓ} {K : Type ℓ} (less : K → K → Bool) : Type ℓ where
  pub asym : (a b : K) → less a b ≡ true → less b a ≡ false
  pub trans : (a b c : K) → less a b ≡ true → less b c ≡ true → less a c ≡ true
  pub total : (a b : K) → a ≢ b → (less a b ≡ true) ⊎ (less b a ≡ true)

module _ {ℓ κ} {K : Type ℓ} {V : Type κ} where
  abbrev pub Distinct : List (K × V) → Type (ℓ ⊔ κ)
  Distinct [] = Unit
  Distinct ((k, v) ∷ es) = All (λ p. k ≢ p.0) es × Distinct es

module _ {κ} {V : Type κ} (less : Bytes → Bytes → Bool) (ord : IsOrder less) where
  abbrev put : Bytes → V → List (Bytes × V) → List (Bytes × V)
  put k v es = insert less (k, v) es

  before :
      (j k : Bytes) (w v : V) (es : List (Bytes × V))
      → less j k ≡ true
      → put k v ((j, w) ∷ es) ≡ (j, w) ∷ put k v es
  before j k w v es h = rw h refl

  after :
      (j k : Bytes) (w v : V) (es : List (Bytes × V))
      → less j k ≡ false
      → put k v ((j, w) ∷ es) ≡ (k, v) ∷ (j, w) ∷ es
  after j k w v es h = rw h refl

  insert_swap_less :
      (a b : Bytes) (v w : V) (es : List (Bytes × V))
      → less a b ≡ true
      → put a v (put b w es) ≡ put b w (put a v es)
  insert_swap_less a b v w [] h = after b a w v [] (ord.asym a b h) ∙ sym (before a b v w [] h)
  insert_swap_less a b v w ((j, u) ∷ es) h = elim (Bool-cases (less j a)) [
    | inl ja ↦
        let jb = ord.trans j a b ja h in
        ap (put a v) (before j b u w es jb)
        ∙ before j a u v (put b w es) ja
        ∙ ap (λ t. (j, u) ∷ t) (insert_swap_less a b v w es h)
        ∙ sym (before j b u w (put a v es) jb)
        ∙ sym (ap (put b w) (before j a u v es ja))
    | inr aj ↦ elim (Bool-cases (less j b)) [
      | inl jb ↦
          ap (put a v) (before j b u w es jb)
          ∙ after j a u v (put b w es) aj
          ∙ ap (λ t. (a, v) ∷ t) (sym (before j b u w es jb))
          ∙ sym (before a b v w ((j, u) ∷ es) h)
          ∙ sym (ap (put b w) (after j a u v es aj))
      | inr bj ↦
          ap (put a v) (after j b u w es bj)
          ∙ after b a w v ((j, u) ∷ es) (ord.asym a b h)
          ∙ ap (λ t. (a, v) ∷ t) (sym (after j b u w es bj))
          ∙ sym (before a b v w ((j, u) ∷ es) h)
          ∙ sym (ap (put b w) (after j a u v es aj))
    ]
  ]

  insert_swap :
      (a b : Bytes) (v w : V) (es : List (Bytes × V))
      → a ≢ b
      → insert less (a, v) (insert less (b, w) es) ≡ insert less (b, w) (insert less (a, v) es)
  insert_swap a b v w es other = elim (ord.total a b other) [
    | inl less_b ↦ insert_swap_less a b v w es less_b
    | inr less_a ↦ sym (insert_swap_less b a w v es less_a)
  ]

pub All-perm {ℓ κ} :
    {A : Type ℓ} (P : A → Type κ) {xs ys : List A} → Permᴰ xs ys → All P ys → All P xs
All-perm P Permᴰ.nil h = tt
All-perm P (Permᴰ.cons e p) (q, h) = (subst P (sym e) q, All-perm P p h)
All-perm P (Permᴰ.swap e f) (q, (r, h)) = (subst P (sym e) r, (subst P (sym f) q, h))
All-perm P (Permᴰ.trans p r) h = All-perm P p (All-perm P r h)

module _ {κ} {V : Type κ} (less : Bytes → Bytes → Bool) (ord : IsOrder less) where
  pub perm-Distinct : {xs ys : List (Bytes × V)} → Permᴰ xs ys → Distinct ys → Distinct xs
  perm-Distinct Permᴰ.nil h = tt
  perm-Distinct (Permᴰ.cons {l₁ = l} e p) (q, h) =
      (subst (λ x. All (λ o. x.0 ≢ o.0) l) (sym e) (All-perm _ p q), perm-Distinct p h)
  perm-Distinct (Permᴰ.swap {l = l} e f) ((other, q), (r, h)) = (
    (
      λ same. other (sym (ap (λ o. o.0) f) ∙ sym same ∙ ap (λ o. o.0) e),
      subst (λ x. All (λ o. x.0 ≢ o.0) l) (sym e) r,
    ),
    (subst (λ x. All (λ o. x.0 ≢ o.0) l) (sym f) q, h),
  )
  perm-Distinct (Permᴰ.trans p r) h = perm-Distinct p (perm-Distinct r h)

  -- Two orders of the same entries are sorted alike.
  pub sort_entries-perm :
      {xs ys : List (Bytes × V)}
      → Permᴰ xs ys
      → Distinct ys
      → sort_entries less xs ≡ sort_entries less ys
  sort_entries-perm Permᴰ.nil h = refl
  sort_entries-perm (Permᴰ.cons {b = b} {l₁ = l₁} e p) (q, h) =
      ap (λ x. insert less x (sort_entries less l₁)) e ∙ ap (insert less b) (sort_entries-perm p h)
  sort_entries-perm (Permᴰ.swap {b = b} {a' = a'} {b' = b'} {l = l} e f) ((other, q), (r, h)) =
      let es = sort_entries less l in
      ap (λ x. insert less x (insert less b es)) e
      ∙ ap (λ x. insert less b' (insert less x es)) f
      ∙ insert_swap less ord b'.0 a'.0 b'.1 a'.1 es (λ same. other (sym same))
  sort_entries-perm (Permᴰ.trans p r) h =
      sort_entries-perm p (perm-Distinct r h) ∙ sort_entries-perm r h
