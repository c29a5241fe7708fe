-- ===== src/Cbor/Canonical/CleanEntries.antt =====
-- The entries that the canonical check collects have distinct keys, and values as clean as those read.
use aafp_go.Base.{
  ◌≡◌, ◌≢◌, subst, inl, inr, true, false, Bool-cases, Bytes, List, [], ◌∷◌, ◌++◌, All, All-append,
  bytes_eq, bytes_eq_iff, Result, ok, arith,
}
use aafp_go.Base.Ensures.{Ensures, Ensures-ok, Ensures-err, Ensures-if}
use aafp_go.Base.Int.{ℤ, pos, negsuc}
use aafp_go.Cbor.{
  Value, unsigned, negative, byte_string, text_string, array, int_map, str_map, boolean, null,
  to_int_entries, to_str_entries, int_eq, to_int64, CborError, mixed_keys,
}
use aafp_go.Cbor.Encode.Unordered.{Distinct}
use aafp_go.Cbor.Canonical.{
  Seen, has_int, has_str, add_int, add_str, add_entry, map_of_seen, is_valid_utf8,
}
use aafp_go.Cbor.Canonical.Written.Clean.{IsClean, CleanInts, CleanStrs, AbsentInt, AbsentStr}

int_eq_refl : (a : ℤ) → int_eq a a ≡ true
int_eq_refl (pos a) = ground arith
int_eq_refl (negsuc a) = ground arith

has_int-absent :
    (key : ℤ) (es : List (ℤ × Value)) → has_int key es ≡ false → All (λ p. p.0 ≢ key) es
has_int-absent key [] h = tt
has_int-absent key ((k, v) ∷ es) h = elim (Bool-cases (int_eq k key)) [
  | inl same ↦ absurd (ground (arith, same, h))
  | inr other ↦ (
    λ e.
        let self : int_eq key key ≡ true = int_eq_refl key in
        let here : int_eq key key ≡ false = rw e at other in cc,
    has_int-absent key es (ground (arith, other, h)),
  )
]

has_str-absent :
    (key : Bytes) (es : List (Bytes × Value)) → has_str key es ≡ false → All (λ p. p.0 ≢ key) es
has_str-absent key [] h = tt
has_str-absent key ((k, v) ∷ es) h = elim (Bool-cases (bytes_eq k key)) [
  | inl same ↦ absurd (ground (arith, same, h))
  | inr other ↦ (
    λ e. let self = (bytes_eq_iff k key).1 e in cc,
    has_str-absent key es (ground (arith, other, h)),
  )
]

Distinct-snoc {ℓ κ} :
    {K : Type ℓ} {V : Type κ} (k : K) (v : V) (es : List (K × V))
    → Distinct es
    → All (λ p. p.0 ≢ k) es
    → Distinct (es ++ ((k, v) ∷ []))
Distinct-snoc k v [] h d = (tt, tt)
Distinct-snoc k v ((j, w) ∷ es) (q, h) (d, ds) =
    (All-append (λ p. j ≢ p.0) es ((k, v) ∷ []) q (d, tt), Distinct-snoc k v es h ds)

-- The entries collected are clean.
pub record CleanSeen (seen : Seen) : Type 0 where
  pub ints_apart : Distinct seen.ints
  pub ints_clean : All (λ p. IsClean p.1) seen.ints
  pub strs_apart : Distinct seen.strs
  pub strs_clean : All (λ p. (is_valid_utf8 p.0 ≡ true) × IsClean p.1) seen.strs

add_int-CleanSeen :
    (key : ℤ) (v : Value) (seen next : Seen)
    → CleanSeen seen
    → IsClean v
    → add_int key v seen ≡ ok next
    → CleanSeen next
unfolding add_int
add_int-CleanSeen key v seen next c clean h = elim (Bool-cases (has_int key seen.ints)) [
  | inl there ↦ absurd (ground (arith, there, h))
  | inr fresh ↦
      let same : record seen { ints = seen.ints ++ ((key, v) ∷ []) } ≡ next =
        ground (arith, fresh, h) in
      subst CleanSeen same (record {
        ints_apart =
            Distinct-snoc key v seen.ints c.ints_apart (has_int-absent key seen.ints fresh);
        ints_clean =
            All-append (λ p. IsClean p.1) seen.ints ((key, v) ∷ []) c.ints_clean (clean, tt);
        strs_apart = c.strs_apart;
        strs_clean = c.strs_clean;
      })
]

add_str-CleanSeen :
    (key : Bytes) (v : Value) (seen next : Seen)
    → CleanSeen seen
    → is_valid_utf8 key ≡ true
    → IsClean v
    → add_str key v seen ≡ ok next
    → CleanSeen next
unfolding add_str
add_str-CleanSeen key v seen next c valid clean h = elim (Bool-cases (has_str key seen.strs)) [
  | inl there ↦ absurd (ground (arith, there, h))
  | inr fresh ↦
      let same : record seen { strs = seen.strs ++ ((key, v) ∷ []) } ≡ next =
        ground (arith, fresh, h) in
      subst CleanSeen same (record {
        ints_apart = c.ints_apart;
        ints_clean = c.ints_clean;
        strs_apart =
            Distinct-snoc key v seen.strs c.strs_apart (has_str-absent key seen.strs fresh);
        strs_clean =
            All-append (λ p. (is_valid_utf8 p.0 ≡ true) × IsClean p.1) seen.strs ((key, v) ∷ [])
              c.strs_clean ((valid, clean), tt);
      })
]

other-CleanSeen :
    (seen next : Seen)
    → CleanSeen seen
    → ◌≡◌ {A = Result CborError Seen} (ok (record seen { others = true })) (ok next)
    → CleanSeen next
other-CleanSeen seen next c h =
    let same : record seen { others = true } ≡ next = ground (arith, h) in
    subst CleanSeen same (record {
      ints_apart = c.ints_apart;
      ints_clean = c.ints_clean;
      strs_apart = c.strs_apart;
      strs_clean = c.strs_clean;
    })

pub add_entry-CleanSeen :
    (k v : Value) (seen next : Seen)
    → CleanSeen seen
    → IsClean k
    → IsClean v
    → add_entry k v seen ≡ ok next
    → CleanSeen next
unfolding add_entry
add_entry-CleanSeen (unsigned u) v seen next c ck cv h =
    add_int-CleanSeen (to_int64 u) v seen next c cv h
add_entry-CleanSeen (negative n) v seen next c ck cv h = add_int-CleanSeen n v seen next c cv h
add_entry-CleanSeen (text_string s) v seen next c ck cv h =
    add_str-CleanSeen s v seen next c ck cv h
add_entry-CleanSeen (byte_string s) v seen next c ck cv h = other-CleanSeen seen next c h
add_entry-CleanSeen (array xs) v seen next c ck cv h = other-CleanSeen seen next c h
add_entry-CleanSeen (int_map es) v seen next c ck cv h = other-CleanSeen seen next c h
add_entry-CleanSeen (str_map es) v seen next c ck cv h = other-CleanSeen seen next c h
add_entry-CleanSeen (boolean b) v seen next c ck cv h = other-CleanSeen seen next c h
add_entry-CleanSeen null v seen next c ck cv h = other-CleanSeen seen next c h

ints-Clean :
    (es : List (ℤ × Value))
    → Distinct es
    → All (λ p. IsClean p.1) es
    → CleanInts (to_int_entries es)
ints-Clean [] d h = tt
ints-Clean ((k, v) ∷ es) (q, d) (c, h) = (absent es q, c, ints-Clean es d h)
  where
    absent : (es : List (ℤ × Value)) → All (λ p. k ≢ p.0) es → AbsentInt k (to_int_entries es)
    absent [] h = tt
    absent ((j, w) ∷ es) (q, h) = (q, absent es h)

strs-Clean :
    (es : List (Bytes × Value))
    → Distinct es
    → All (λ p. (is_valid_utf8 p.0 ≡ true) × IsClean p.1) es
    → CleanStrs (to_str_entries es)
strs-Clean [] d h = tt
strs-Clean ((k, v) ∷ es) (q, d) ((u, c), h) = (u, absent es q, c, strs-Clean es d h)
  where
    absent : (es : List (Bytes × Value)) → All (λ p. k ≢ p.0) es → AbsentStr k (to_str_entries es)
    absent [] h = tt
    absent ((j, w) ∷ es) (q, h) = (q, absent es h)

pub map_of_seen-Clean : (seen : Seen) → CleanSeen seen → Ensures IsClean (map_of_seen seen)
unfolding map_of_seen
map_of_seen-Clean seen c =
    Ensures-if IsClean _ _ _
      (Ensures-ok IsClean (int_map (to_int_entries seen.ints))
        (ints-Clean seen.ints c.ints_apart c.ints_clean))
      (Ensures-if IsClean _ _ _
        (Ensures-ok IsClean (str_map (to_str_entries seen.strs))
          (strs-Clean seen.strs c.strs_apart c.strs_clean))
        (Ensures-err IsClean mixed_keys))
