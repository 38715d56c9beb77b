-- ===== src/Common/Hex.antt =====
-- The standard library's hexadecimal encoding of bytes, and its round trips.
use Prim.Native.Char.{Char, code}
use Prim.Native.Nat.{ℕ, zero, suc, ◌+◌, ◌-◌, ◌*◌, ◌/◌, ◌%◌, ◌<◌}
use Prim.Native.String.{String}
use mathlib.Core.Path.{◌≡◌, refl, ap, ◌∙◌, sym}
use mathlib.Core.Logic.{◌⊎◌, inl, inr}
use mathlib.Core.Bool.{Bool, true, false, not, ◌&&◌}
use mathlib.Core.Option.{Option, none, some}
use mathlib.Core.List.{List, [], ◌∷◌}
use text.Mathlib.TextEquality.{Char-path}
use native.Mathlib.Omega.{arith}
use qday_walletd.Common.Tests.{ltb, leb, ◌==◌, if◌then◌else◌, ==_iff}
use qday_walletd.Common.Lists.{All, any, length}
use qday_walletd.Common.Text.{codes}
use qday_walletd.Common.Encoding.{Bytes, IsAscii}

-- The n-th character of a text.
abbrev char_at : ℕ → String → Char
char_at n String.[] = "0"
char_at zero (String.◌∷◌ c s) = c
char_at (suc n) (String.◌∷◌ c s) = char_at n s

-- The digits of `hex.EncodeToString`.
abbrev pub hex_digit : ℕ → Char
hex_digit n = char_at n "0123456789abcdef"

-- `hex.EncodeToString`
unfoldable pub hex_encode : Bytes → String
hex_encode [] = ""
hex_encode (b ∷ bs) =
    String.◌∷◌ (hex_digit (b / 16)) (String.◌∷◌ (hex_digit (b % 16)) (hex_encode bs))

-- The value of a digit, in either case.
abbrev pub digit_value : ℕ → Option ℕ
digit_value c =
    if leb b'0' c && leb c b'9'
    then some (c - b'0')
    else if leb b'a' c && leb c b'f'
    then some (c - b'a' + 10)
    else if leb b'A' c && leb c b'F'
    then some (c - b'A' + 10)
    else none

abbrev joined : Option ℕ → Option ℕ → Option Bytes → Option Bytes
joined (some high) (some low) (some bs) = some ((high * 16 + low) ∷ bs)
joined _ _ _ = none

unfoldable pub hex_bytes : List ℕ → Option Bytes
hex_bytes [] = some []
hex_bytes (a ∷ []) = none
hex_bytes (a ∷ b ∷ cs) = joined (digit_value a) (digit_value b) (hex_bytes cs)

-- `hex.DecodeString`, without the text of its error.
unfoldable pub hex_decode : String → Option Bytes
unfolding hex_bytes
hex_decode s = hex_bytes (codes s)

-- A test of every number below a bound.
unfoldable pub check_below : ℕ → (ℕ → Bool) → Bool
check_below zero f = true
check_below (suc n) f = f n && check_below n f

pub check_below-true : (n : ℕ) (f : ℕ → Bool) (d : ℕ) → check_below n f ≡ true → d < n → f d ≡ true
unfolding check_below
check_below-true zero f d e h = absurd (omega arith)
check_below-true (suc n) f d e h =
    let split : (d ≡ n) ⊎ (d < n) = omega arith in
    elim split [
      | inl same ↦ rw same (ground arith)
      | inr less ↦ check_below-true n f d (ground arith) less
    ]

digit_code : (d : ℕ) → d < 16 → code (hex_digit d) ≡ (if ltb d 10 then 48 + d else 87 + d)
unfolding check_below
digit_code d h = (==_iff (code (hex_digit d)) (if ltb d 10 then 48 + d else 87 + d)).0 (
    check_below-true 16 (λ n. code (hex_digit n) == (if ltb n 10 then 48 + n else 87 + n)) d refl h)

digit_value-hex_digit : (d : ℕ) → d < 16 → digit_value (code (hex_digit d)) ≡ some d
digit_value-hex_digit d h = rw (digit_code d h) (ground arith)

-- What is encoded is decoded again.
pub hex_decode-hex_encode :
    (bs : Bytes) → All (λ b. b < 256) bs → hex_decode (hex_encode bs) ≡ some bs
unfolding hex_decode hex_encode hex_bytes
hex_decode-hex_encode [] h = refl
hex_decode-hex_encode (b ∷ bs) h =
    rw
      (
        digit_value-hex_digit (b / 16) (omega (arith, h.0)),
        digit_value-hex_digit (b % 16) (omega arith),
        hex_decode-hex_encode bs h.1,
      )
      (ap (λ n. some (n ∷ bs)) (omega arith))

-- `value == strings.ToLower(value)`, for the texts that can be decoded.
abbrev pub is_lower : String → Bool
is_lower s = not (any (λ c. leb b'A' c && leb c b'Z') (codes s))

-- A digit in lower case is the digit of its value.
digit_value-inv :
    (c d : ℕ)
    → digit_value c ≡ some d
    → (leb b'A' c && leb c b'Z') ≡ false
    → (d < 16) × (c ≡ (if ltb d 10 then 48 + d else 87 + d))
digit_value-inv c d e low = ground arith

hex_digit-of :
    (c : Char) (d : ℕ)
    → digit_value (code c) ≡ some d
    → (leb b'A' (code c) && leb (code c) b'Z') ≡ false
    → (d < 16) × (hex_digit d ≡ c)
hex_digit-of c d e low =
    let (small, spelt) = digit_value-inv (code c) d e low in
    (small, Char-path _ _ (digit_code d small ∙ sym spelt))

joined-inv :
    (x y : Option ℕ) (z : Option Bytes) (bs : Bytes)
    → joined x y z ≡ some bs
    → (h : ℕ) × (l : ℕ) × (r : Bytes) × (x ≡ some h)
      × (y ≡ some l)
      × (z ≡ some r)
      × (bs ≡ (h * 16 + l) ∷ r)
joined-inv (some h) (some l) (some r) bs e = (h, l, r, refl, refl, refl, ground arith)
joined-inv none y z bs e = absurd (ground arith)
joined-inv (some h) none z bs e = absurd (ground arith)
joined-inv (some h) (some l) none bs e = absurd (ground arith)

-- What is decoded from lower case is encoded to the same text.
pub hex_encode-hex_decode :
    (s : String) (bs : Bytes) → is_lower s ≡ true → hex_decode s ≡ some bs → hex_encode bs ≡ s
unfolding hex_decode hex_encode hex_bytes
hex_encode-hex_decode String.[] bs low e = let same : bs ≡ [] = ground arith in rw same
hex_encode-hex_decode (String.◌∷◌ a String.[]) bs low e = absurd (ground arith)
hex_encode-hex_decode (String.◌∷◌ a (String.◌∷◌ b s)) bs low e =
    let (h, l, r, first, second, rest, whole) = joined-inv _ _ _ bs e in
    let high = hex_digit-of a h first (ground arith) in
    let digit = hex_digit-of b l second (ground arith) in
    let up : (h * 16 + l) / 16 ≡ h = omega (arith, digit.0) in
    let down : (h * 16 + l) % 16 ≡ l = omega (arith, digit.0) in
    rw (whole, up, down, high.1, digit.1, hex_encode-hex_decode s r (ground arith) rest)

-- What encoding yields: ASCII, in lower case, two characters for each byte.
abbrev pub IsHexText : List ℕ → ℕ → Type 0
IsHexText cs n = IsAscii cs × (any (λ c. leb b'A' c && leb c b'Z') cs ≡ false) × (length cs ≡ 2 * n)

digit_code-low :
    (d : ℕ)
    → d < 16
    → (code (hex_digit d) < 128)
      × ((leb b'A' (code (hex_digit d)) && leb (code (hex_digit d)) b'Z') ≡ false)
digit_code-low d h = rw (digit_code d h) (ground arith)

pub hex_encode-IsHexText :
    (bs : Bytes) → All (λ b. b < 256) bs → IsHexText (codes (hex_encode bs)) (length bs)
unfolding hex_encode
hex_encode-IsHexText [] h = (tt, refl, refl)
hex_encode-IsHexText (b ∷ bs) h =
    let (ascii, low, size) = hex_encode-IsHexText bs h.1 in
    let high = digit_code-low (b / 16) (omega (arith, h.0)) in
    let digit = digit_code-low (b % 16) (omega arith) in
    ((high.0, (digit.0, ascii)), rw (high.1, digit.1) low, omega (arith, size))
