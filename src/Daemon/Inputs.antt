-- ===== src/Daemon/Inputs.antt =====
-- internal/daemon/service.go and swap.go: the checks of what a client sends.
pub mod Accepted
mod Tests
use qday_walletd.Common.{
  ℕ, String, str_append, Bool, not, ◌&&◌, ◌||◌, List, Bytes, codes, text_bytes, length, ltb, leb,
  ◌==◌, str_eq, all, if◌then◌else◌, ◌/◌,
}
use qday_walletd.Types.{Platform, Currency, Result, ok, err, failure}

-- The length in bytes is 1..128.
abbrev fits_length : String → Bool
unfolding text_bytes
fits_length value = not (str_eq value "" || ltb 128 (length (text_bytes value)))

-- Printable ASCII without the space.
abbrev pub is_printable : ℕ → Bool
is_printable r = not (ltb r 0x21 || ltb 0x7e r)

unfoldable pub valid_reference : String → Bool
unfolding text_bytes
valid_reference value = fits_length value && all is_printable (codes value)

-- A letter, a digit, or one of `._:-`.
abbrev pub is_request_char : ℕ → Bool
is_request_char r =
    leb b'a' r && leb r b'z'
    || leb b'A' r && leb r b'Z'
    || leb b'0' r && leb r b'9'
    || (r == b'.' || r == b'_' || r == b':' || r == b'-')

unfoldable pub valid_request_id : String → Bool
unfolding text_bytes
valid_request_id value = fits_length value && all is_request_char (codes value)

module _ (p : Platform) where
  abbrev positive : String → Result Currency → Result Currency
  positive name (ok c) =
      if c == 0 then err (failure (str_append name " must be a positive atomic integer")) else ok c
  positive name (err e) = err (failure (str_append name " must be a positive atomic integer"))

  unfoldable pub parse_positive_currency : String → String → Result Currency
  unfolding text_bytes
  parse_positive_currency value name =
      if str_eq value "" || ltb 80 (length (text_bytes value))
      then err (failure (str_append name " is required"))
      else positive name (p.parse_currency value)

  -- `types.HastingsPerSiacoin.Div64(1000)`
  abbrev pub standard_fee : Currency
  standard_fee = p.hastings_per_siacoin / 1000

  -- An absent fee is the standard fee.
  unfoldable pub default_fee : String → Result Currency
  unfolding parse_positive_currency
  default_fee value =
      if str_eq value "" then ok standard_fee else parse_positive_currency value "feeAtomic"
