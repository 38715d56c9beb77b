-- ===== src/Common/Printing.antt =====
-- The standard library's trimming of texts and printing of integers.
use Prim.Native.Char.{Char, code}
use Prim.Native.Nat.{ℕ, zero, suc, ◌/◌, ◌%◌}
use Prim.Native.String.{String}
use mathlib.Core.Bool.{Bool, ◌&&◌, ◌||◌}
use qday_walletd.Common.Tests.{ltb, leb, ◌==◌, if◌then◌else◌}
use qday_walletd.Common.Hex.{hex_digit}

-- `unicode.IsSpace`
abbrev pub is_space : ℕ → Bool
is_space c =
    leb 9 c && leb c 13
    || (c == 0x20 || c == 0x85 || c == 0xa0 || c == 0x1680)
    || leb 0x2000 c && leb c 0x200a
    || (c == 0x2028 || c == 0x2029 || c == 0x202f || c == 0x205f || c == 0x3000)

trim_left : String → String
trim_left String.[] = ""
trim_left (String.◌∷◌ c s) =
    let rest = trim_left s in if is_space (code c) then rest else String.◌∷◌ c s

-- A character in front of what is left: a space stays in front of something.
abbrev put_before : Char → String → String
put_before c String.[] = if is_space (code c) then "" else String.◌∷◌ c ""
put_before c (String.◌∷◌ d s) = String.◌∷◌ c (String.◌∷◌ d s)

trim_right : String → String
trim_right String.[] = ""
trim_right (String.◌∷◌ c s) = put_before c (trim_right s)

-- `strings.TrimSpace`
unfoldable pub trim_space : String → String
unfolding trim_left trim_right
trim_space s = trim_right (trim_left s)

unfoldable pub decimal_from : ℕ → ℕ → String → String
decimal_from zero n s = s
decimal_from (suc fuel) n s =
    let longer = String.◌∷◌ (hex_digit (n % 10)) s in
    let rest = decimal_from fuel (n / 10) longer in if ltb n 10 then longer else rest

-- An integer of 64 bits in decimal, as `fmt` prints it: it has at most 20 digits.
unfoldable pub decimal : ℕ → String
unfolding decimal_from
decimal n = decimal_from 20 n ""
