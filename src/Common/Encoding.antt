-- ===== src/Common/Encoding.antt =====
-- Byte strings, and numbers of a fixed width written big-endian. A Go array such as `[32]byte` that
-- the program only compares and copies is the number that its bytes spell.
use Prim.Native.Nat.{ℕ, zero, suc, ◌+◌, ◌*◌, ◌/◌, ◌%◌, ◌^◌, ◌<◌}
use Prim.Native.String.{String}
use mathlib.Core.Path.{◌≡◌, refl, sym, ap₂, ◌∙◌}
use mathlib.Core.List.{List, [], ◌∷◌, ◌++◌, head-eq_of_cons-eq, tail-eq_of_cons-eq}
use text.Mathlib.TextEquality.{Char-path}
use native.Mathlib.Nat.{pow-suc}
use native.Mathlib.Omega.{arith}
use qday_walletd.Common.Tests.{ltb, if◌then◌else◌}
use qday_walletd.Common.Lists.{length, length-append, All}
use qday_walletd.Common.Members.{All-append}
use qday_walletd.Common.Text.{codes}

abbrev pub Bytes : Type 0
Bytes = List ℕ

-- The last `k` bytes of `v`, the highest first.
unfoldable pub be_bytes : ℕ → ℕ → Bytes
be_bytes zero v = []
be_bytes (suc k) v = be_bytes k (v / 256) ++ v % 256 ∷ []

be_value_from : ℕ → Bytes → ℕ
be_value_from acc [] = acc
be_value_from acc (b ∷ bs) = be_value_from (acc * 256 + b) bs

-- The number that a byte string spells.
unfoldable pub be_value : Bytes → ℕ
unfolding be_value_from
be_value = be_value_from 0

pub length-be_bytes : (k v : ℕ) → length (be_bytes k v) ≡ k
unfolding be_bytes
length-be_bytes zero v = refl
length-be_bytes (suc k) v =
    omega
      (arith, length-append (be_bytes k (v / 256)) ((v % 256) ∷ []), length-be_bytes k (v / 256))

-- Every byte is one.
pub be_bytes-small : (k v : ℕ) → All (λ b. b < 256) (be_bytes k v)
unfolding be_bytes
be_bytes-small zero v = tt
be_bytes-small (suc k) v =
    All-append _ (be_bytes k (v / 256)) ((v % 256) ∷ []) (be_bytes-small k (v / 256))
      (omega arith, tt)

be_value_from-snoc :
    (acc : ℕ) (bs : Bytes) (b : ℕ)
    → be_value_from acc (bs ++ b ∷ []) ≡ be_value_from acc bs * 256 + b
unfolding be_value_from
be_value_from-snoc acc [] b = refl
be_value_from-snoc acc (x ∷ bs) b = be_value_from-snoc (acc * 256 + x) bs b

quotient_bound : (k v : ℕ) → v < 256 ^ suc k → v / 256 < 256 ^ k
quotient_bound k v h = let e : 256 ^ suc k ≡ 256 ^ k * 256 = pow-suc 256 k in omega arith

-- A number that fits is read back.
pub be_value-be_bytes : (k v : ℕ) → v < 256 ^ k → be_value (be_bytes k v) ≡ v
unfolding be_bytes be_value
be_value-be_bytes zero v h = omega arith
be_value-be_bytes (suc k) v h =
    be_value_from-snoc 0 (be_bytes k (v / 256)) (v % 256)
    ∙ omega (arith, be_value-be_bytes k (v / 256) (quotient_bound k v h))

-- The bytes of one code point in UTF-8.
abbrev utf8 : ℕ → Bytes
utf8 c =
    if ltb c 0x80
    then c ∷ []
    else if ltb c 0x800
    then (0xc0 + c / 64) ∷ (0x80 + c % 64) ∷ []
    else if ltb c 0x10000
    then (0xe0 + c / 4096) ∷ (0x80 + c / 64 % 64) ∷ (0x80 + c % 64) ∷ []
    else (0xf0 + c / 262144) ∷ (0x80 + c / 4096 % 64) ∷ (0x80 + c / 64 % 64) ∷ (0x80 + c % 64) ∷ []

utf8_all : List ℕ → Bytes
utf8_all [] = []
utf8_all (c ∷ cs) = utf8 c ++ utf8_all cs

-- `[]byte(text)`.
unfoldable pub text_bytes : String → Bytes
unfolding utf8_all
text_bytes s = utf8_all (codes s)

-- Every code point is below 128.
abbrev pub IsAscii : List ℕ → Type 0
IsAscii [] = Unit
IsAscii (c ∷ cs) = (c < 128) × IsAscii cs

utf8_all_ascii : (cs : List ℕ) → IsAscii cs → utf8_all cs ≡ cs
unfolding utf8_all
utf8_all_ascii [] h = refl
utf8_all_ascii (c ∷ cs) h = ground (arith, utf8_all_ascii cs h.1)

codes_inj : (s t : String) → codes s ≡ codes t → s ≡ t
codes_inj String.[] String.[] e = refl
codes_inj String.[] (String.◌∷◌ d t) e = cc
codes_inj (String.◌∷◌ c s) String.[] e = cc
codes_inj (String.◌∷◌ c s) (String.◌∷◌ d t) e =
    ap₂ String.◌∷◌ (Char-path c d (head-eq_of_cons-eq e)) (codes_inj s t (tail-eq_of_cons-eq e))

-- ASCII texts with the same bytes are the same.
pub text_bytes_inj :
    (s t : String) → IsAscii (codes s) → IsAscii (codes t) → text_bytes s ≡ text_bytes t → s ≡ t
unfolding text_bytes
text_bytes_inj s t hs ht e =
    codes_inj s t (sym (utf8_all_ascii (codes s) hs) ∙ e ∙ utf8_all_ascii (codes t) ht)

-- The bytes of an ASCII text are its code points.
pub text_bytes_ascii : (s : String) → IsAscii (codes s) → text_bytes s ≡ codes s
unfolding text_bytes
text_bytes_ascii s h = utf8_all_ascii (codes s) h
