-- ===== src/Cbor/Canonical/Written/Clean.antt =====
-- The values whose encoding the canonical check lets through.
use aafp_go.Base.{◌≡◌, ◌≢◌, true, Bytes, All}
use aafp_go.Base.Int.{ℤ}
use aafp_go.Cbor.{
  Value, Items, IntEntries, StrEntries, unsigned, negative, byte_string, text_string, array,
  int_map, str_map, boolean, null, no_items, item, no_ints, int_entry, no_strs, str_entry,
}
use aafp_go.Cbor.Encode.Unordered.{Distinct}
use aafp_go.Cbor.Canonical.{is_valid_utf8}
use aafp_go.Cbor.Decode.RoundTrip.Values.{both_ints, both_strs}

abbrev pub AbsentInt : ℤ → IntEntries → Type 0
AbsentInt k no_ints = Unit
AbsentInt k (int_entry j v es) = (k ≢ j) × AbsentInt k es

abbrev pub AbsentStr : Bytes → StrEntries → Type 0
AbsentStr k no_strs = Unit
AbsentStr k (str_entry j v es) = (k ≢ j) × AbsentStr k es

-- At every level, texts and keys are UTF-8 without U+FFFD, and a map's keys are distinct.
abbrev mutual
  pub IsClean : Value → Type 0
  IsClean (unsigned n) = Unit
  IsClean (negative n) = Unit
  IsClean (byte_string b) = Unit
  IsClean (text_string s) = is_valid_utf8 s ≡ true
  IsClean (array xs) = CleanItems xs
  IsClean (int_map es) = CleanInts es
  IsClean (str_map es) = CleanStrs es
  IsClean (boolean b) = Unit
  IsClean null = Unit

  pub CleanItems : Items → Type 0
  CleanItems no_items = Unit
  CleanItems (item v xs) = IsClean v × CleanItems xs

  pub CleanInts : IntEntries → Type 0
  CleanInts no_ints = Unit
  CleanInts (int_entry k v es) = AbsentInt k es × IsClean v × CleanInts es

  pub CleanStrs : StrEntries → Type 0
  CleanStrs no_strs = Unit
  CleanStrs (str_entry k v es) =
      (is_valid_utf8 k ≡ true) × AbsentStr k es × IsClean v × CleanStrs es

pub ints-Distinct : (es : IntEntries) → CleanInts es → Distinct (both_ints es)
unfolding both_ints
ints-Distinct no_ints h = tt
ints-Distinct (int_entry k v es) (q, _, h) = (absent es q, ints-Distinct es h)
  where
    absent : (es : IntEntries) → AbsentInt k es → All (λ p. k ≢ p.0) (both_ints es)
    absent no_ints h = tt
    absent (int_entry j v es) (q, h) = (q, absent es h)

pub strs-Distinct : (es : StrEntries) → CleanStrs es → Distinct (both_strs es)
unfolding both_strs
strs-Distinct no_strs h = tt
strs-Distinct (str_entry k v es) (_, q, _, h) = (absent es q, strs-Distinct es h)
  where
    absent : (es : StrEntries) → AbsentStr k es → All (λ p. k ≢ p.0) (both_strs es)
    absent no_strs h = tt
    absent (str_entry j v es) (q, h) = (q, absent es h)
