-- ===== src/Daemon/Inputs/Accepted.antt =====
-- What the checks let through.
use qday_walletd.Common.{
  ℕ, String, inl, inr, ◌<◌, ◌≤◌, ◌≡◌, ◌≢◌, Bool, true, List, [], ◌∷◌, arith, codes, text_bytes,
  text_bytes_ascii, length, all, IsAscii, eq_iff,
}
use qday_walletd.Types.{Platform, Currency, ok, Result-cases}
use qday_walletd.Derive.Separation.{swap, IsSession}
use qday_walletd.Daemon.Inputs.{is_request_char, valid_request_id, parse_positive_currency}

all-IsAscii :
    (p : ℕ → Bool) (cs : List ℕ) → ((c : ℕ) → p c ≡ true → c < 128) → all p cs ≡ true → IsAscii cs
all-IsAscii p [] h e = tt
all-IsAscii p (c ∷ cs) h e = (h c (ground arith), all-IsAscii p cs h (ground arith))

is_request_char-ascii : (c : ℕ) → is_request_char c ≡ true → c < 128
is_request_char-ascii c e = ground arith

-- An accepted request or swap identifier is not empty and has at most 128 characters, all of them ASCII,
-- so it is a session for which the key derivation is unambiguous.
pub valid_request_id-IsSession :
    (s : String)
    → valid_request_id s ≡ true
    → (s ≢ "") × (length (codes s) ≤ 128) × IsSession (swap s)
unfolding valid_request_id
valid_request_id-IsSession s e =
    let ascii = all-IsAscii is_request_char (codes s) is_request_char-ascii (ground arith) in
    let short : length (text_bytes s) ≤ 128 = ground arith in
    (ground (arith, eq_iff s ""), rw (← text_bytes_ascii s ascii) short, (ascii, omega arith))

-- An accepted amount is positive and is what the text spells.
parse_positive_currency-pos :
    (p : Platform) (value name : String) (c : Currency)
    → parse_positive_currency p value name ≡ ok c
    → (0 < c) × (p.parse_currency value ≡ ok c)
unfolding parse_positive_currency
parse_positive_currency-pos p value name c e = elim (Result-cases (p.parse_currency value)) [
  | inl (v, good) ↦ ground arith
  | inr (b, bad) ↦ absurd (ground arith)
]
