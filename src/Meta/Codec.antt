-- ===== src/Meta/Codec.antt =====
-- What internal/meta relies on of the imported encoders: what they write they read back.
use qday_walletd.Common.{ℕ, ◌^◌, ◌<◌, ◌≡◌, ◌++◌, be_bytes, Bytes}
use qday_walletd.Types.{Platform, QdayKeys, Transaction, Currency, currency_limit, ok}

-- A key is 32 bytes.
pub record FitsKeys (k : QdayKeys) : Type 0 where
  pub classical : k.classical < 2 ^ 256
  pub reserve : k.reserve < 2 ^ 256

pub record Codec (p : Platform) : Type 0 where
  pub parse_address_string : (a : ℕ) → a < 2 ^ 256 → p.parse_address (p.address_string a) ≡ ok a
  pub keys_bytes_layout :
      (k : QdayKeys) → p.keys_bytes k ≡ be_bytes 32 k.classical ++ be_bytes 32 k.reserve
  pub parse_exact_string :
      (c : Currency) → c < currency_limit → p.parse_currency (p.exact_string c) ≡ ok c
  pub decode_encoded :
      (t : Transaction) (raw : Bytes)
      → p.encode_transaction t ≡ ok raw
      → p.decode_transaction raw ≡ ok t
