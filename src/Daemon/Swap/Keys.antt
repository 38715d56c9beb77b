-- ===== src/Daemon/Swap/Keys.antt =====
-- internal/daemon/swap.go: the public keys of the two parties, as a client sends and sees them.
use qday_walletd.Common.{
  ℕ, String, not, ◌||◌, Option, none, some, Bytes, be_bytes, be_value, text_bytes, length, ◌==◌,
  str_eq, str_append, hex_encode, hex_decode, is_lower, if◌then◌else◌,
}
use qday_walletd.Types.{
  Platform, QdayKeys, Error, error_text, Result, ok, err, failure, ◌>>=◌, ◌>>◌, guard,
}

pub record SwapKeysView : Type 0 where
  pub classical : String
  pub reserve : String
  pub address : String

-- The text of a `[32]byte`.
abbrev pub hash_text : ℕ → String
hash_text n = hex_encode (be_bytes 32 n)

abbrev not_hash : String → Error
not_hash name = failure (str_append name " must be 32-byte lowercase hexadecimal data")

abbrev whole_hash : String → Option Bytes → Result ℕ
whole_hash name none = err (not_hash name)
whole_hash name (some raw) = if length raw == 32 then ok (be_value raw) else err (not_hash name)

-- `parseHash`, and the function `decode` of `parseSwapKeys`. A letter beyond ASCII is refused like an
-- upper-case one, with the same error.
unfoldable pub parse_hash : String → String → Result ℕ
unfolding text_bytes hex_decode be_value
parse_hash name value =
    if not (length (text_bytes value) == 64) || not (is_lower value)
    then err (not_hash name)
    else whole_hash name (hex_decode value)

-- `fmt.Errorf("%s: %w", name, err)`
abbrev named : String → Option Error → Result (Unit {0})
named name none = ok tt
named name (some e) = err (failure (str_append name (str_append ": " (error_text e))))

module _ (p : Platform) where
  -- `swapKeysView`
  unfoldable pub swap_keys_view : QdayKeys → SwapKeysView
  unfolding hex_encode be_bytes
  swap_keys_view keys = record {
    classical = hash_text keys.classical;
    reserve = hash_text keys.reserve;
    address = p.address_string (p.keys_address keys);
  }

  -- `parseSwapKeys`
  unfoldable pub parse_swap_keys : String → SwapKeysView → Result QdayKeys
  unfolding parse_hash
  parse_swap_keys name view = do
    classical ← parse_hash (str_append name ".classical") view.classical
    reserve ← parse_hash (str_append name ".reserve") view.reserve
    let keys : QdayKeys = record { classical = classical; reserve = reserve }
    named name (p.keys_validate keys)
    guard (str_eq view.address "" || str_eq view.address (p.address_string (p.keys_address keys)))
        (failure (str_append name ".address does not match its public keys"))
    ok keys
