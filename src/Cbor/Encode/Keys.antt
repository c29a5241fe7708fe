-- ===== src/Cbor/Encode/Keys.antt =====
-- The orders in which `Encode` writes the keys of a map, as orders on the keys themselves.
use aafp_go.Base.{
  ℕ, zero, suc, ◌*◌, ◌+◌, ◌^◌, ◌/◌, ◌%◌, ◌<◌, ◌≤◌, ◌≡◌, ◌⊎◌, sym, ap, ◌∙◌, true, false, ltb,
  if◌then◌else◌, Bytes, [], ◌∷◌, ◌++◌, length, be_bytes, length-be_bytes, arith,
}
use aafp_go.Base.Bits.{bit_or_join}
use aafp_go.Base.Int.{ℤ, pos, negsuc}
use aafp_go.Cbor.Head.{encode_head}
use aafp_go.Cbor.Head.RoundTrip.{head_ai, head_tail, head_ai-lt, encode_head-parts}
use aafp_go.Cbor.Encode.{bytes_lt, encode_int_key, int_key_less, str_key_less}
use aafp_go.Cbor.Decode.RoundTrip.Shape.{IsInt64}

-- Integer keys: from 0 upwards, then from -1 downwards.
abbrev pub IntBefore : ℤ → ℤ → Type 0
IntBefore (pos a) (pos b) = a ≤ b
IntBefore (pos a) (negsuc b) = Unit
IntBefore (negsuc a) (pos b) = ⊥
IntBefore (negsuc a) (negsuc b) = a ≤ b

-- Bytes as words in a dictionary.
abbrev pub WordBefore : Bytes → Bytes → Type 0
WordBefore [] b = Unit
WordBefore (x ∷ a) [] = ⊥
WordBefore (x ∷ a) (y ∷ b) = (x < y) ⊎ ((x ≡ y) × WordBefore a b)

-- Text keys: the shorter first, those of one length as words.
abbrev pub StrBefore : Bytes → Bytes → Type 0
StrBefore a b = (length a < length b) ⊎ ((length a ≡ length b) × WordBefore a b)

bytes_lt-snoc :
    (xs ys : Bytes) (x y : ℕ)
    → length xs ≡ length ys
    → bytes_lt (xs ++ (x ∷ [])) (ys ++ (y ∷ []))
      ≡ (if bytes_lt xs ys then true else if bytes_lt ys xs then false else ltb x y)
bytes_lt-snoc [] [] x y h = ground arith
bytes_lt-snoc [] (c ∷ ys) x y h = absurd (omega arith)
bytes_lt-snoc (b ∷ xs) [] x y h = absurd (omega arith)
bytes_lt-snoc (b ∷ xs) (c ∷ ys) x y h = ground (arith, bytes_lt-snoc xs ys x y)

-- Big-endian bytes of one width are ordered as the numbers.
bytes_lt-be_bytes :
    (k a b : ℕ) → a < 256 ^ k → b < 256 ^ k → bytes_lt (be_bytes k a) (be_bytes k b) ≡ ltb a b
unfolding be_bytes
bytes_lt-be_bytes zero a b h h' = ground arith
bytes_lt-be_bytes (suc k) a b h h' =
    let same : length (be_bytes k (a / 256)) ≡ length (be_bytes k (b / 256)) =
      length-be_bytes k (a / 256) ∙ sym (length-be_bytes k (b / 256)) in
    let left = bytes_lt-be_bytes k (a / 256) (b / 256) (omega arith) (omega arith) in
    let right = bytes_lt-be_bytes k (b / 256) (a / 256) (omega arith) (omega arith) in
    bytes_lt-snoc (be_bytes k (a / 256)) (be_bytes k (b / 256)) (a % 256) (b % 256) same
    ∙ rw (left, right) (ground arith)

-- The heads of one major type are ordered as their arguments.
bytes_lt-head :
    (m a b : ℕ)
    → a < 2 ^ 64
    → b < 2 ^ 64
    → bytes_lt ((m * 32 + head_ai a) ∷ head_tail a) ((m * 32 + head_ai b) ∷ head_tail b) ≡ ltb a b
bytes_lt-head m a b h h' = ground (
  arith,
  bytes_lt-be_bytes 1 a b,
  bytes_lt-be_bytes 2 a b,
  bytes_lt-be_bytes 4 a b,
  bytes_lt-be_bytes 8 a b,
)

head_bytes : (m a : ℕ) → m < 8 → encode_head (m * 32) a ≡ (m * 32 + head_ai a) ∷ head_tail a
head_bytes m a h =
    encode_head-parts (m * 32) a
    ∙ ap (λ b. b ∷ head_tail a) (bit_or_join m (head_ai a) h (head_ai-lt a))

head_order :
    (m n a b : ℕ)
    → m < 8
    → n < 8
    → bytes_lt (encode_head (m * 32) a) (encode_head (n * 32) b)
      ≡ bytes_lt ((m * 32 + head_ai a) ∷ head_tail a) ((n * 32 + head_ai b) ∷ head_tail b)
head_order m n a b h h' = λ i. bytes_lt (head_bytes m a h i) (head_bytes n b h' i)

-- A negative integer's head is above that of every other one.
majors_order :
    (a b : ℕ)
    → bytes_lt ((0 * 32 + head_ai a) ∷ head_tail a) ((1 * 32 + head_ai b) ∷ head_tail b) ≡ true
majors_order a b = ground (arith, head_ai-lt a)

majors_order' :
    (a b : ℕ)
    → bytes_lt ((1 * 32 + head_ai a) ∷ head_tail a) ((0 * 32 + head_ai b) ∷ head_tail b) ≡ false
majors_order' a b = ground (arith, head_ai-lt b)

-- An integer key comes before another by its encoding where it does as an integer.
pub int_key_less-IntBefore :
    (a b : ℤ)
    → IsInt64 a
    → IsInt64 b
    → (int_key_less a b ≡ true → IntBefore a b) × (int_key_less a b ≡ false → IntBefore b a)
unfolding int_key_less encode_int_key
int_key_less-IntBefore (pos a) (pos b) h h' =
    let order =
      head_order 0 0 a b (omega arith) (omega arith)
      ∙ bytes_lt-head 0 a b (omega arith) (omega arith) in
    (λ e. ground (arith, order), λ e. ground (arith, order))
int_key_less-IntBefore (pos a) (negsuc b) h h' =
    let order = head_order 0 1 a b (omega arith) (omega arith) ∙ majors_order a b in
    (λ e. tt, λ e. cc)
int_key_less-IntBefore (negsuc a) (pos b) h h' =
    let order = head_order 1 0 a b (omega arith) (omega arith) ∙ majors_order' a b in
    (λ e. absurd (cc), λ e. tt)
int_key_less-IntBefore (negsuc a) (negsuc b) h h' =
    let order =
      head_order 1 1 a b (omega arith) (omega arith)
      ∙ bytes_lt-head 1 a b (omega arith) (omega arith) in
    (λ e. ground (arith, order), λ e. ground (arith, order))

pub IntBefore-trans : (a b c : ℤ) → IntBefore a b → IntBefore b c → IntBefore a c
IntBefore-trans a b c h h' = ground arith

bytes_lt-WordBefore :
    (a b : Bytes) → (bytes_lt a b ≡ true → WordBefore a b) × (bytes_lt a b ≡ false → WordBefore b a)
bytes_lt-WordBefore [] [] = (λ e. tt, λ e. tt)
bytes_lt-WordBefore (x ∷ a) [] = (λ e. cc, λ e. tt)
bytes_lt-WordBefore [] (y ∷ b) = (λ e. tt, λ e. cc)
bytes_lt-WordBefore (x ∷ a) (y ∷ b) = ground (arith, bytes_lt-WordBefore a b)

WordBefore-trans : (a b c : Bytes) → WordBefore a b → WordBefore b c → WordBefore a c
WordBefore-trans [] b c h h' = tt
WordBefore-trans (x ∷ a) [] c h h' = absurd h
WordBefore-trans (x ∷ a) (y ∷ b) [] h h' = h'
WordBefore-trans (x ∷ a) (y ∷ b) (z ∷ c) h h' = ground (arith, WordBefore-trans a b c)

-- A text key comes before another just as the code compares them.
pub str_key_less-StrBefore :
    (a b : Bytes)
    → (str_key_less a b ≡ true → StrBefore a b) × (str_key_less a b ≡ false → StrBefore b a)
unfolding str_key_less
str_key_less-StrBefore a b = ground (arith, bytes_lt-WordBefore a b)

pub StrBefore-trans : (a b c : Bytes) → StrBefore a b → StrBefore b c → StrBefore a c
StrBefore-trans a b c h h' = ground (arith, WordBefore-trans a b c)
