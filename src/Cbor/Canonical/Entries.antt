-- ===== src/Cbor/Canonical/Entries.antt =====
-- The entries that the canonical check collects from the pairs of a map, against the map that `Decode`
-- makes of the same pairs.
use aafp_go.Base.{
  ◌≡◌, refl, ap, sym, ◌∙◌, inl, inr, true, false, Bytes, List, [], ◌∷◌, ◌++◌, append-nil,
  append_assoc, Bool-cases, Result, ok, arith,
}
use aafp_go.Base.Int.{ℤ}
use aafp_go.Cbor.{
  Value, unsigned, negative, byte_string, text_string, array, int_map, str_map, boolean, null,
  CborError, int_of, to_int64, to_int_entries, to_str_entries,
}
use aafp_go.Cbor.Decode.{is_int, is_text, all_keys, int_pairs, str_pairs, map_of}
use aafp_go.Cbor.Canonical.{Seen, add_entry, map_of_seen, is_empty, add_int, add_str}

-- What the entries at the end tell about the pairs read since `seen`, if no key was of another kind:
-- without text keys they are the integer keys' entries, without integer keys the text keys'.
pub record Collects (seen : Seen) (ps : List (Value × Value)) (last : Seen) : Type 0 where
  pub none_before : seen.others ≡ false
  pub ints_alone :
      is_empty last.strs ≡ true
      → (is_empty seen.strs ≡ true)
        × (all_keys is_int ps ≡ true)
        × (last.ints ≡ seen.ints ++ int_pairs ps)
  pub strs_alone :
      is_empty last.ints ≡ true
      → (is_empty seen.ints ≡ true)
        × (all_keys is_text ps ≡ true)
        × (last.strs ≡ seen.strs ++ str_pairs ps)

is_empty-snoc {ℓ} : {A : Type ℓ} (xs : List A) (x : A) → is_empty (xs ++ (x ∷ [])) ≡ true → ⊥
is_empty-snoc [] x h = cc
is_empty-snoc (y ∷ ys) x h = cc

add_int-Collects :
    (key : ℤ) (k v : Value) (seen next last : Seen) (ps : List (Value × Value))
    → is_int k ≡ true
    → int_of k ≡ key
    → add_int key v seen ≡ ok next
    → Collects next ps last
    → Collects seen ((k, v) ∷ ps) last
unfolding add_int
add_int-Collects key k v seen next last ps is same h c = record {
  none_before = ground (arith, sent, c.none_before);
  ints_alone = λ e.
      let (a, b, d) = c.ints_alone e in
      (
        ground (arith, sent, a),
        rw is b,
        d
            ∙ ap (λ xs. xs ++ int_pairs ps) sent.0
            ∙ append_assoc seen.ints ((key, v) ∷ []) (int_pairs ps)
            ∙ ap (λ i. seen.ints ++ ((i, v) ∷ int_pairs ps)) (sym same),
      );
  strs_alone = λ e.
      let (a, b, d) = c.strs_alone e in
      absurd (is_empty-snoc seen.ints (key, v) (ap is_empty (sym sent.0) ∙ a));
}
  where
    sent :
        (next.ints ≡ seen.ints ++ ((key, v) ∷ []))
        × (next.strs ≡ seen.strs)
        × (next.others ≡ seen.others)
    sent = ground (arith, h)

add_str-Collects :
    (key : Bytes) (v : Value) (seen next last : Seen) (ps : List (Value × Value))
    → add_str key v seen ≡ ok next
    → Collects next ps last
    → Collects seen ((text_string key, v) ∷ ps) last
unfolding add_str
add_str-Collects key v seen next last ps h c = record {
  none_before = ground (arith, sent, c.none_before);
  ints_alone = λ e.
      let (a, b, d) = c.ints_alone e in
      absurd (is_empty-snoc seen.strs (key, v) (ap is_empty (sym sent.0) ∙ a));
  strs_alone = λ e.
      let (a, b, d) = c.strs_alone e in
      (
        ground (arith, sent, a),
        b,
        d
            ∙ ap (λ xs. xs ++ str_pairs ps) sent.0
            ∙ append_assoc seen.strs ((key, v) ∷ []) (str_pairs ps),
      );
}
  where
    sent :
        (next.strs ≡ seen.strs ++ ((key, v) ∷ []))
        × (next.ints ≡ seen.ints)
        × (next.others ≡ seen.others)
    sent = ground (arith, h)

-- A key of another kind is noted for good.
other-Collects :
    (seen next last : Seen) (ps : List (Value × Value)) {A : Type 0}
    → ◌≡◌ {A = Result CborError Seen} (ok (record seen { others = true })) (ok next)
    → Collects next ps last
    → A
other-Collects seen next last ps h c = absurd (ground (arith, h, c.none_before))

pub add_entry-Collects :
    (k v : Value) (seen next last : Seen) (ps : List (Value × Value))
    → add_entry k v seen ≡ ok next
    → Collects next ps last
    → Collects seen ((k, v) ∷ ps) last
unfolding add_entry int_of
add_entry-Collects (unsigned u) v seen next last ps h c =
    add_int-Collects (to_int64 u) (unsigned u) v seen next last ps refl refl h c
add_entry-Collects (negative n) v seen next last ps h c =
    add_int-Collects n (negative n) v seen next last ps refl refl h c
add_entry-Collects (text_string s) v seen next last ps h c =
    add_str-Collects s v seen next last ps h c
add_entry-Collects (byte_string s) v seen next last ps h c = other-Collects seen next last ps h c
add_entry-Collects (array xs) v seen next last ps h c = other-Collects seen next last ps h c
add_entry-Collects (int_map es) v seen next last ps h c = other-Collects seen next last ps h c
add_entry-Collects (str_map es) v seen next last ps h c = other-Collects seen next last ps h c
add_entry-Collects (boolean b) v seen next last ps h c = other-Collects seen next last ps h c
add_entry-Collects null v seen next last ps h c = other-Collects seen next last ps h c

pub Collects-start : (seen : Seen) → seen.others ≡ false → Collects seen [] seen
Collects-start seen h = record {
  none_before = h;
  ints_alone = λ e. (e, refl, sym (append-nil seen.ints));
  strs_alone = λ e. (e, refl, sym (append-nil seen.strs));
}

text_key : (k : Value) → is_text k ≡ true → is_int k ≡ false
text_key (unsigned u) h = cc
text_key (negative n) h = cc
text_key (text_string s) h = refl
text_key (byte_string s) h = cc
text_key (array xs) h = cc
text_key (int_map es) h = cc
text_key (str_map es) h = cc
text_key (boolean b) h = cc
text_key null h = cc

not_all_ints :
    (ps : List (Value × Value))
    → all_keys is_text ps ≡ true
    → is_empty (str_pairs ps) ≡ false
    → all_keys is_int ps ≡ false
not_all_ints [] text kept = cc
not_all_ints ((k, v) ∷ ps) text kept =
    let first : is_text k ≡ true = ground (arith, text) in rw (text_key k first) refl

pub map_of_seen-others : (last : Seen) (m : Value) → map_of_seen last ≡ ok m → last.others ≡ false
unfolding map_of_seen
map_of_seen-others last m h = ground (arith, h)

-- The map made of the entries is the map that `Decode` makes of the pairs.
pub map_of_seen-map_of :
    (ps : List (Value × Value)) (last : Seen) (m : Value)
    → Collects (record { ints = []; strs = []; others = false }) ps last
    → map_of_seen last ≡ ok m
    → map_of ps ≡ ok m
unfolding map_of_seen map_of
map_of_seen-map_of ps last m c h = elim (Bool-cases (is_empty last.strs)) [
  | inl e ↦
      let (_, ints, same) = c.ints_alone e in
      let made : ◌≡◌ {A = Result CborError Value} (ok (int_map (to_int_entries last.ints))) (ok m) =
        ground (arith, e, h) in
      rw ints (rw (← same) made)
  | inr e ↦
      let no_int : is_empty last.ints ≡ true = ground (arith, e, h) in
      let (_, strs, same) = c.strs_alone no_int in
      let made : ◌≡◌ {A = Result CborError Value} (ok (str_map (to_str_entries last.strs))) (ok m) =
        ground (arith, e, no_int, h) in
      rw (not_all_ints ps strs (ap is_empty (sym same) ∙ e)) (rw strs (rw (← same) made))
]
