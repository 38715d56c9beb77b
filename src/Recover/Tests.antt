-- ===== src/Recover/Tests.antt =====
-- A journal that has lost one of two child addresses.
use qday_walletd.Common.{ℕ, ◌<◌, ◌≡◌, refl, some, [], ◌∷◌, ◌++◌, Bytes, be_bytes, be_value}
use qday_walletd.Types.{ok}
use qday_walletd.Derive.{keys}
use qday_walletd.Sample.{platform, platform-Codec, print, parse}
use qday_walletd.Meta.Tables.{AddressRow, empty}
use qday_walletd.Meta.Addresses.{add_address, address_by_index}
use qday_walletd.Daemon.Machine.{Daemon, machine}
use qday_walletd.Daemon.Sample.{world, started}
use qday_walletd.Daemon.Wallet.Tests.{platform-KeyLaws}
use qday_walletd.Recover.{restore_one, restore, recover_addresses}
use qday_walletd.Recover.Restored.{IsRestored, Keeps, recover_addresses-IsRestored}

abbrev customer_row : AddressRow
customer_row = record {
  child_index = 0;
  address = ".";
  public_keys = be_bytes 32 1 ++ be_bytes 32 7;
  reference = some "customer-42";
  kind = "deposit";
  created_at = 7;
}

abbrev damaged : Daemon
damaged = started (record empty { addresses = customer_row ∷ [] })

abbrev repaired : Daemon
repaired = (recover_addresses platform world "secret" 2 damaged).1

recovers : recover_addresses platform world "secret" 2 damaged ≡ (ok 1, repaired)
unfolding recover_addresses restore restore_one machine keys address_by_index add_address print
    parse be_bytes be_value
recovers = refl

recover_addresses-IsRestored_example :
    ((seed : Bytes) × (world.read_key 0 "secret" ≡ ok seed)
      × ((i : ℕ) → i < 2 → IsRestored platform seed repaired.db i))
    × Keeps platform damaged.db repaired.db
recover_addresses-IsRestored_example =
    recover_addresses-IsRestored platform platform-Codec platform-KeyLaws world "secret" 2 1 damaged
      repaired recovers
