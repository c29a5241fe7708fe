-- ===== src/Cbor/Head.antt =====
-- `encodeHead`, `readArg` and `readArgCanonical`: the initial byte and the argument behind it.
pub mod RoundTrip
use aafp_go.Base.{
  ℕ, ◌≤◌, Bool, ltb, leb, ◌==◌, if◌then◌else◌, Bytes, [], ◌∷◌, length, take, drop, bit_or, Result,
  ok, err, panic, ◌>>=◌, be_bytes, from_be,
}
use aafp_go.Cbor.{
  CborError, truncated_argument, bad_additional_info, indefinite_length, non_canonical,
}

unfoldable pub encode_head : ℕ → ℕ → Bytes
encode_head mt val =
    if ltb val 24
    then bit_or mt val ∷ []
    else if leb val 0xff
    then bit_or mt 24 ∷ be_bytes 1 val
    else if leb val 0xffff
    then bit_or mt 25 ∷ be_bytes 2 val
    else if leb val 0xffffffff
    then bit_or mt 26 ∷ be_bytes 4 val
    else bit_or mt 27 ∷ be_bytes 8 val

-- An argument of `width` bytes.
unfoldable pub read_width : ℕ → Bytes → Result CborError (ℕ × Bytes)
read_width width rest =
    if ltb (length rest) width
    then err truncated_argument
    else ok (from_be (take width rest), drop width rest)

-- The argument with the bytes behind it.
unfoldable pub read_arg : ℕ → Bytes → Result CborError (ℕ × Bytes)
unfolding read_width
read_arg ai rest =
    if ltb ai 24
    then ok (ai, rest)
    else if ai == 24
    then read_width 1 rest
    else if ai == 25
    then read_width 2 rest
    else if ai == 26
    then read_width 4 rest
    else if ai == 27
    then read_width 8 rest
    else if ai == 31
    then err indefinite_length
    else err bad_additional_info

-- The argument must be above what the next shorter form holds.
unfoldable pub above : ℕ → Result CborError (ℕ × Bytes) → Result CborError (ℕ × Bytes)
above most (ok (v, rest)) = if leb v most then err non_canonical else ok (v, rest)
above most (err e) = err e
above most panic = panic

unfoldable pub read_arg_canonical : ℕ → Bytes → Result CborError (ℕ × Bytes)
unfolding read_width above
read_arg_canonical ai rest =
    if ltb ai 24
    then ok (ai, rest)
    else if ai == 24
    then above 23 (read_width 1 rest)
    else if ai == 25
    then above 255 (read_width 2 rest)
    else if ai == 26
    then above 65535 (read_width 4 rest)
    else if ai == 27
    then above 4294967295 (read_width 8 rest)
    else if ai == 31
    then err indefinite_length
    else err bad_additional_info
