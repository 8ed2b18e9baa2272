-- ===== src/Base64.antt =====
-- Go's `base64.RawURLEncoding`, in which nodes are sent: no padding, `-` and `_` for 62 and 63, and
-- a decoder that skips the ends of lines and does not look at the bits that are left over.
use sprout_go.Base.{
  ℕ, ◌+◌, ◌-◌, ◌*◌, ◌/◌, ◌%◌, ◌<◌, ◌≡◌, refl, ◌||◌, ◌&&◌, Option, none, some, List, [], ◌∷◌, arith,
  ltb, leb, ◌==◌, if◌then◌else◌, Text, All,
}

infixl 10 ◌>>=◌
abbrev ◌>>=◌ : {A B : Type 0} → Option A → (A → Option B) → Option B
none >>= f = none
some a >>= f = f a

-- The character that stands for six bits.
unfoldable pub digit : ℕ → ℕ
digit n =
    if ltb n 26
    then b'A' + n
    else if ltb n 52
    then b'a' + (n - 26)
    else if ltb n 62
    then b'0' + (n - 52)
    else if n == 62
    then b'-'
    else b'_'

unfoldable pub sextet : ℕ → Option ℕ
sextet c =
    if leb b'A' c && leb c b'Z'
    then some (c - b'A')
    else if leb b'a' c && leb c b'z'
    then some (c - b'a' + 26)
    else if leb b'0' c && leb c b'9'
    then some (c - b'0' + 52)
    else if c == b'-'
    then some 62
    else if c == b'_'
    then some 63
    else none

-- EncodeToString
unfoldable pub encode : List ℕ → Text
encode [] = []
encode (a ∷ []) = digit (a / 4) ∷ digit (a % 4 * 16) ∷ []
encode (a ∷ b ∷ []) = digit (a / 4) ∷ digit (a % 4 * 16 + b / 16) ∷ digit (b % 16 * 4) ∷ []
encode (a ∷ b ∷ c ∷ r) =
    digit (a / 4)
    ∷ digit (a % 4 * 16 + b / 16)
    ∷ digit (b % 16 * 4 + c / 64)
    ∷ digit (c % 64)
    ∷ encode r

unfoldable pub decode_groups : Text → Option (List ℕ)
decode_groups [] = some []
decode_groups (p ∷ []) = none
decode_groups (p ∷ q ∷ []) = do i ← sextet p; j ← sextet q; some ((i * 4 + j / 16) ∷ [])
decode_groups (p ∷ q ∷ r ∷ []) = do
  i ← sextet p
  j ← sextet q
  k ← sextet r
  some ((i * 4 + j / 16) ∷ (j % 16 * 16 + k / 4) ∷ [])
decode_groups (p ∷ q ∷ r ∷ s ∷ t) = do
  i ← sextet p
  j ← sextet q
  k ← sextet r
  l ← sextet s
  rest ← decode_groups t
  some ((i * 4 + j / 16) ∷ (j % 16 * 16 + k / 4) ∷ (k % 4 * 64 + l) ∷ rest)

unfoldable pub strip_lines : Text → Text
strip_lines [] = []
strip_lines (c ∷ cs) = let rest = strip_lines cs in if c == 10 || c == 13 then rest else c ∷ rest

-- DecodeString
unfoldable pub decode : Text → Option (List ℕ)
decode s = decode_groups (strip_lines s)

abbrev pub IsByte : ℕ → Type 0
IsByte b = b < 256

sextet-digit : (n : ℕ) → n < 64 → sextet (digit n) ≡ some n
unfolding sextet digit
sextet-digit n h = ground arith

-- An encoded text has no white space: every character is a letter, a digit, `-` or `_`.
abbrev pub IsDigit64 : ℕ → Type 0
IsDigit64 c = (33 < c) × (c < 127)

digit-IsDigit64 : (n : ℕ) → n < 64 → IsDigit64 (digit n)
unfolding digit
digit-IsDigit64 n h = ground arith

pub encode-IsDigit64 : (bs : List ℕ) → All IsByte bs → All IsDigit64 (encode bs)
unfolding encode
encode-IsDigit64 [] h = tt
encode-IsDigit64 (a ∷ []) h =
    (digit-IsDigit64 (a / 4) (omega arith), (digit-IsDigit64 (a % 4 * 16) (omega arith), tt))
encode-IsDigit64 (a ∷ b ∷ []) h = (
  digit-IsDigit64 (a / 4) (omega arith),
  (
    digit-IsDigit64 (a % 4 * 16 + b / 16) (omega arith),
    (digit-IsDigit64 (b % 16 * 4) (omega arith), tt),
  ),
)
encode-IsDigit64 (a ∷ b ∷ c ∷ r) h = (
  digit-IsDigit64 (a / 4) (omega arith),
  (
    digit-IsDigit64 (a % 4 * 16 + b / 16) (omega arith),
    (
      digit-IsDigit64 (b % 16 * 4 + c / 64) (omega arith),
      (digit-IsDigit64 (c % 64) (omega arith), encode-IsDigit64 r h.1.1.1),
    ),
  ),
)

strip_lines-ink : (s : Text) → All IsDigit64 s → strip_lines s ≡ s
unfolding strip_lines
strip_lines-ink [] h = refl
strip_lines-ink (c ∷ s) h = ground (arith, strip_lines-ink s h.1)

decode_groups-encode : (bs : List ℕ) → All IsByte bs → decode_groups (encode bs) ≡ some bs
unfolding encode decode_groups
decode_groups-encode [] h = refl
decode_groups-encode (a ∷ []) h =
    rw (sextet-digit (a / 4) (omega arith), sextet-digit (a % 4 * 16) (omega arith)) (ground arith)
decode_groups-encode (a ∷ b ∷ []) h =
    rw
      (
        sextet-digit (a / 4) (omega arith),
        sextet-digit (a % 4 * 16 + b / 16) (omega arith),
        sextet-digit (b % 16 * 4) (omega arith),
      )
      (ground arith)
decode_groups-encode (a ∷ b ∷ c ∷ r) h =
    rw
      (
        sextet-digit (a / 4) (omega arith),
        sextet-digit (a % 4 * 16 + b / 16) (omega arith),
        sextet-digit (b % 16 * 4 + c / 64) (omega arith),
        sextet-digit (c % 64) (omega arith),
        decode_groups-encode r h.1.1.1,
      )
      (ground arith)

-- Bytes that are encoded are decoded again.
pub decode-encode : (bs : List ℕ) → All IsByte bs → decode (encode bs) ≡ some bs
unfolding decode
decode-encode bs h =
    rw (strip_lines-ink (encode bs) (encode-IsDigit64 bs h)) (decode_groups-encode bs h)
