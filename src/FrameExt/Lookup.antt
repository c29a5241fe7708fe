-- ===== src/FrameExt/Lookup.antt =====
-- `FindUnknownCritical` and `FindExtension` by the first extension that they look for.
use aafp_go.Base.{
  ℕ, ◌≡◌, refl, Bool, true, false, not, ◌&&◌, List, [], ◌∷◌, ◌++◌, All, some, arith, ◌==◌,
}
use aafp_go.FrameExt.{Extension, is_known, find_unknown_critical, find_extension}

abbrev pub unknown_critical : List ℕ → Extension → Bool
unknown_critical known_types e = e.critical && not (is_known known_types e.ext_type)

-- The result is the type of the first extension that is critical and not known, whatever that type
-- is. At type 0 it is the answer that is also given where there is none.
pub find_unknown_critical_first :
    (before after : List Extension) (e : Extension) (known_types : List ℕ)
    → All (λ d. unknown_critical known_types d ≡ false) before
    → unknown_critical known_types e ≡ true
    → find_unknown_critical (before ++ (e ∷ after)) known_types ≡ e.ext_type
unfolding find_unknown_critical
find_unknown_critical_first [] after e known_types h u = ground arith
find_unknown_critical_first (d ∷ before) after e known_types (p, h) u =
    ground (arith, find_unknown_critical_first before after e known_types h u)

-- Where no extension is critical and not known the result is 0.
pub find_unknown_critical_none :
    (exts : List Extension) (known_types : List ℕ)
    → All (λ d. unknown_critical known_types d ≡ false) exts
    → find_unknown_critical exts known_types ≡ 0
unfolding find_unknown_critical
find_unknown_critical_none [] known_types h = refl
find_unknown_critical_none (d ∷ exts) known_types (p, h) =
    ground (arith, find_unknown_critical_none exts known_types h)

-- `FindExtension` returns the first extension of the type.
pub find_extension_first :
    (before after : List Extension) (e : Extension)
    → All (λ d. (d.ext_type == e.ext_type) ≡ false) before
    → find_extension (before ++ (e ∷ after)) e.ext_type ≡ some e
unfolding find_extension
find_extension_first [] after e h = ground arith
find_extension_first (d ∷ before) after e (p, h) =
    ground (arith, find_extension_first before after e h)
