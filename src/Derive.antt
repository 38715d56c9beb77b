-- ===== src/Derive.antt =====
-- internal/derive/derive.go: the seeds of the custody child keys and of the swap session keys.
-- HMAC-SHA512 and the key generation are parameters, `hmac_sha512` and `keys_from_seed`.
pub mod Separation
mod Tests
use qday_walletd.Common.{ℕ, String, ◌++◌, Bytes, text_bytes, be_bytes, length, take}
use qday_walletd.Types.{Platform, QdayPrivateKeys, Result}

abbrev pub domain : String
domain = "QDAY/walletd/child/v1"

abbrev pub swap_domain : String
swap_domain = "QDAY/walletd/swap/v1"

-- What `Seed` writes into the MAC.
child_message : ℕ → Bytes
unfolding text_bytes be_bytes
child_message index = text_bytes domain ++ be_bytes 8 index

-- What `SwapSeed` writes into the MAC: the identifier behind its length.
swap_message : String → Bytes
unfolding text_bytes be_bytes
swap_message swap_id =
    text_bytes swap_domain ++ (be_bytes 8 (length (text_bytes swap_id)) ++ text_bytes swap_id)

module _ (p : Platform) where
  -- `Seed`
  seed : Bytes → ℕ → Bytes
  unfolding child_message
  seed master index = take 32 (p.hmac_sha512 master (child_message index))

  -- `Keys`
  unfoldable pub keys : Bytes → ℕ → Result QdayPrivateKeys
  unfolding seed
  keys master index = p.keys_from_seed (seed master index)

  -- `SwapSeed`
  swap_seed : Bytes → String → Bytes
  unfolding swap_message
  swap_seed master swap_id = take 32 (p.hmac_sha512 master (swap_message swap_id))

  -- `SwapKeys`
  unfoldable pub swap_keys : Bytes → String → Result QdayPrivateKeys
  unfolding swap_seed
  swap_keys master swap_id = p.keys_from_seed (swap_seed master swap_id)
