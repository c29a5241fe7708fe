-- ===== src/CloseManager/Truncate.antt =====
-- `truncateMessage` keeps within the limit.
use aafp_go.Base.{
  ℕ, zero, suc, ◌+◌, ◌≤◌, ◌≡◌, refl, not, leb, Bool-cases, leb→le, inl, inr, Bytes, List, [], ◌∷◌,
  ◌++◌, length, length-append, take, arith,
}
use aafp_go.Base.Utf8.{encode_rune, rune_len, length-encode_rune, valid_string, runes}
use aafp_go.CloseManager.{back_up, collect, truncate_message, max_close_message_len}

back_up-le : (end : ℕ) (s : Bytes) → back_up end s ≤ end
unfolding back_up
back_up-le zero s = omega arith
back_up-le (suc end) s = ground (arith, back_up-le end s)

length-take-le : (n : ℕ) (s : Bytes) → length (take n s) ≤ n
length-take-le zero s = omega arith
length-take-le (suc n) [] = omega arith
length-take-le (suc n) (b ∷ s) = omega (arith, length-take-le n s)

length-collect-le :
    (rs : List (ℕ × ℕ)) (total : ℕ) (result : Bytes)
    → length result ≡ total
    → total ≤ max_close_message_len
    → length (collect rs total result) ≤ max_close_message_len
unfolding collect
length-collect-le [] total result e h = omega arith
length-collect-le ((r, w) ∷ rs) total result e h = ground (
  arith,
  length-append result (encode_rune r),
  length-encode_rune r,
  length-collect-le rs (total + rune_len r) (result ++ encode_rune r),
)

-- On any bytes, UTF-8 or not, the message that is kept or sent has at most 256 bytes.
pub length-truncate_message-le : (s : Bytes) → length (truncate_message s) ≤ max_close_message_len
unfolding truncate_message
length-truncate_message-le s = elim (Bool-cases (leb (length s) max_close_message_len)) [
  | inl small ↦ rw small (leb→le _ _ small)
  | inr large ↦ elim (Bool-cases (not (valid_string (take (back_up max_close_message_len s) s)))) [
    | inl broken ↦ rw (large, broken) (length-collect-le (runes s) 0 [] refl (omega arith))
    | inr whole ↦
        rw (large, whole)
          (omega (
            arith,
            length-take-le (back_up max_close_message_len s) s,
            back_up-le max_close_message_len s,
          ))
  ]
]

-- A message within the limit is left as it is.
pub truncate_message-short : (s : Bytes) → length s ≤ max_close_message_len → truncate_message s ≡ s
unfolding truncate_message
truncate_message-short s h = ground arith
