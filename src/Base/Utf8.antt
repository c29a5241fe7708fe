-- ===== src/Base/Utf8.antt =====
-- Go's UTF-8: what ranging over a string, `[]rune(s)`, `string(runes)` and the package unicode/utf8
-- do, byte by byte. A byte that starts no well-formed rune is read as U+FFFD with width 1.
use native.Mathlib.Omega.{arith}
use Prim.Native.Nat.{ℕ, zero, suc, ◌+◌, ◌*◌, ◌-◌, ◌/◌, ◌%◌, ◌<◌}
use mathlib.Core.Path.{◌≡◌, refl}
use mathlib.Core.Bool.{Bool, true, ◌&&◌, not}
use mathlib.Core.List.{List, [], ◌∷◌}
use aafp_go.Base.Tests.{ltb, leb, ◌==◌, if◌then◌else◌}
use aafp_go.Base.Lists.{Bytes, length, drop, get_or}

abbrev pub rune_error : ℕ
rune_error = 0xfffd

abbrev within : ℕ → ℕ → ℕ → Bool
within lo hi b = leb lo b && leb b hi

-- The bounds on the second byte, by the first.
abbrev second_ok : ℕ → ℕ → Bool
second_ok b c =
    if b == 0xe0
    then within 0xa0 0xbf c
    else if b == 0xed
    then within 0x80 0x9f c
    else if b == 0xf0
    then within 0x90 0xbf c
    else if b == 0xf4
    then within 0x80 0x8f c
    else within 0x80 0xbf c

-- A past-the-end byte reads as 0, which continues no rune.
unfoldable pub decode_rune : Bytes → ℕ × ℕ
decode_rune s =
    let b = get_or 0 s 0 in
    let c = get_or 0 s 1 in
    let d = get_or 0 s 2 in
    let e = get_or 0 s 3 in
    if ltb b 0x80
    then (b, 1)
    else if within 0xc2 0xdf b && within 0x80 0xbf c
    then ((b - 0xc0) * 64 + (c - 0x80), 2)
    else if within 0xe0 0xef b && second_ok b c && within 0x80 0xbf d
    then ((b - 0xe0) * 4096 + (c - 0x80) * 64 + (d - 0x80), 3)
    else if within 0xf0 0xf4 b && second_ok b c && within 0x80 0xbf d && within 0x80 0xbf e
    then ((b - 0xf0) * 262144 + (c - 0x80) * 4096 + (d - 0x80) * 64 + (e - 0x80), 4)
    else (rune_error, 1)

-- The runes of a string with their widths. A rune takes a byte at least, so `length s` rounds serve.
runes_loop : ℕ → Bytes → List (ℕ × ℕ)
runes_loop zero s = []
runes_loop (suc fuel) [] = []
runes_loop (suc fuel) (b ∷ s) =
    let (r, w) = decode_rune (b ∷ s) in (r, w) ∷ runes_loop fuel (drop w (b ∷ s))

unfoldable pub runes : Bytes → List (ℕ × ℕ)
unfolding runes_loop decode_rune
runes s = runes_loop (length s) s

-- `utf8.ValidString`: an error rune has width 1, and U+FFFD itself has 3.
abbrev all_valid : List (ℕ × ℕ) → Bool
all_valid [] = true
all_valid ((r, w) ∷ rs) = not (r == rune_error && w == 1) && all_valid rs

unfoldable pub valid_string : Bytes → Bool
unfolding runes
valid_string s = all_valid (runes s)

-- `utf8.RuneStart`.
unfoldable pub rune_start : ℕ → Bool
rune_start b = not (within 0x80 0xbf b)

abbrev pub IsRune : ℕ → Type 0
IsRune r = r < 0x110000

-- `utf8.RuneLen` and `utf8.AppendRune` on a rune that is read from a string.
unfoldable pub rune_len : ℕ → ℕ
rune_len r = if ltb r 0x80 then 1 else if ltb r 0x800 then 2 else if ltb r 0x10000 then 3 else 4

unfoldable pub encode_rune : ℕ → Bytes
encode_rune r =
    if ltb r 0x80
    then r ∷ []
    else if ltb r 0x800
    then (0xc0 + r / 64) ∷ (0x80 + r % 64) ∷ []
    else if ltb r 0x10000
    then (0xe0 + r / 4096) ∷ (0x80 + r / 64 % 64) ∷ (0x80 + r % 64) ∷ []
    else (0xf0 + r / 262144) ∷ (0x80 + r / 4096 % 64) ∷ (0x80 + r / 64 % 64) ∷ (0x80 + r % 64) ∷ []

pub length-encode_rune : (r : ℕ) → length (encode_rune r) ≡ rune_len r
unfolding encode_rune rune_len
length-encode_rune r = ground arith

-- "aé€😀" and a stray continuation byte.
runes_mixed :
    runes (0x61 ∷ 0xc3 ∷ 0xa9 ∷ 0xe2 ∷ 0x82 ∷ 0xac ∷ 0xf0 ∷ 0x9f ∷ 0x98 ∷ 0x80 ∷ 0x80 ∷ [])
    ≡ (0x61, 1) ∷ (0xe9, 2) ∷ (0x20ac, 3) ∷ (0x1f600, 4) ∷ (rune_error, 1) ∷ []
unfolding runes
runes_mixed = refl
