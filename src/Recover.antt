-- ===== src/Recover.antt =====
-- main.go: `recoverAddresses`, which restores the journal's addresses from the master seed. Its flags
-- and files are read before; opening the database is taken for granted.
pub mod Restored
mod Tests
use qday_walletd.Common.{
  ℕ, zero, suc, ◌+◌, String, Bool, not, ◌&&◌, leb, ◌==◌, Option, none, some, Bytes,
}
use qday_walletd.Types.{Platform, QdayKeys, failure, same_keys}
use qday_walletd.Derive.{keys}
use qday_walletd.Meta.Addresses.{Address, address_by_index, add_address}
use qday_walletd.Daemon.Machine.{
  World, Action, pure, lift, ask, ask_result, query, ◌>>=◌, ◌>>◌, require, statement,
}
use qday_walletd.Daemon.Wallet.{address_record}

module _ (p : Platform) (w : World) where
  -- One child address: 1 where its row was missing.
  unfoldable pub restore_one : ℕ → QdayKeys → Option Address → Action ℕ
  restore_one index public (some existing) = do
    require (same_keys existing.public public)
        (failure "stored child address does not match the master seed")
    pure 0
  restore_one index public none = do
    now ← ask w.now
    statement w (add_address p (address_record p index public "" "change" now))
    pure 1

  -- The loop over the child addresses from an index on.
  unfoldable pub restore : Bytes → ℕ → ℕ → ℕ → Action ℕ
  restore seed zero index added = pure added
  restore seed (suc left) index added = do
    pair ← lift (keys p seed index)
    existing ← query w (address_by_index p index)
    new ← restore_one index pair.public existing
    restore seed left (suc index) (added + new)

  -- `recoverAddresses` of so many addresses, with the password of the keystore.
  unfoldable pub recover_addresses : String → ℕ → Action ℕ
  recover_addresses password count = do
    require (not (count == 0) && leb count 10_000_000)
        (failure "count must be between 1 and 10000000")
    seed ← ask_result (λ t. w.read_key t password)
    restore seed count 0 0
