-- ===== src/Daemon/Wallet/Tests.antt =====
-- Runs of the allocation of addresses.
use qday_walletd.Common.{
  Option, Bytes, ◌%◌, ◌+◌, ◌≡◌, refl, none, some, [], ◌∷◌, arith, be_bytes, be_value, text_bytes,
  ◌++◌,
}
use qday_walletd.Types.{QdayPrivateKeys, ok}
use qday_walletd.Meta.Codec.{FitsKeys}
use qday_walletd.Meta.Addresses.Indices.{IsGapless}
use qday_walletd.Daemon.Ends.{Ends}
use qday_walletd.Daemon.Steps.{Yields}
use qday_walletd.Sample.{platform, platform-Codec, print, parse}
use qday_walletd.Derive.{keys}
use qday_walletd.Meta.Tables.{empty}
use qday_walletd.Meta.Addresses.{Address, next_index, add_address, address_by_reference}
use qday_walletd.Daemon.Inputs.{valid_reference}
use qday_walletd.Daemon.Wallet.Repeated.{
  new_deposit_address-known, KeyLaws, SameAccount, new_deposit_address-repeated,
}
use qday_walletd.Daemon.Wallet.Allocation.{IsAllocated, Yields-new_address, new_address-IsGapless}
use qday_walletd.Meta.Swaps.{SwapKey, add_swap_key, swap_key_row}
use qday_walletd.Meta.Writes.{Writes, none_made, then_write, key_added}
use qday_walletd.Daemon.Machine.{Daemon, machine, watch, custody}
use qday_walletd.Daemon.Sample.{world, started}
use qday_walletd.Daemon.Wallet.{
  AddressView, view_address, master_seed, register_address, new_address, new_deposit_address,
}

abbrev account : AddressView
account = record {
  index = 0;
  address = ".";
  reference = "customer-42";
  kind = "deposit";
  created_at = 7_000_000_000;
}

abbrev recorded : Address
recorded = record {
  index = 0;
  address = 1;
  public = record { classical = 1; reserve = 7 };
  reference = "customer-42";
  kind = "deposit";
  created_at = 7_000_000_000;
}

abbrev opened : Daemon
opened = record {
  db = record empty {
    addresses =
        record {
          child_index = 0;
          address = ".";
          public_keys = be_bytes 32 1 ++ be_bytes 32 7;
          reference = some "customer-42";
          kind = "deposit";
          created_at = 7;
        }
        ∷ [];
  };
  master = some (1 ∷ []);
  clock = 5;
  trace = watch custody 1 "customer-42" ∷ [];
}

first_call : new_deposit_address platform world "customer-42" (started empty) ≡ (ok account, opened)
unfolding new_deposit_address machine valid_reference text_bytes address_by_reference new_address
    master_seed next_index keys be_bytes add_address register_address print be_value
first_call = refl

-- A swap session is stored, the daemon is restarted, and stays locked.
abbrev session : SwapKey
session = record {
  swap_id = "swap-1";
  public = record { classical = 3; reserve = 7 };
  created_at = 0;
}

abbrev restarted : Daemon
restarted = record opened {
  db = record opened.db { swap_keys = swap_key_row platform session ∷ [] };
  master = none;
  clock = 0;
  trace = [];
}

in_between : Writes platform opened.db restarted.db
unfolding add_swap_key be_bytes
in_between = then_write none_made (key_added session refl)

abbrev repeated : AddressView
repeated = record account { created_at = 7_000_000_000 }

second_call :
    new_deposit_address platform world "customer-42" restarted
    ≡ (ok repeated, record restarted { clock = 2; trace = watch custody 1 "customer-42" ∷ [] })
unfolding new_deposit_address machine valid_reference text_bytes address_by_reference be_bytes
    be_value register_address print parse
second_call = refl

platform-fits :
    (seed : Bytes) (pair : QdayPrivateKeys)
    → platform.keys_from_seed seed ≡ ok pair
    → FitsKeys pair.public
platform-fits seed pair e =
    let same : pair ≡ record {
      public = record { classical = be_value seed % 1000 + 1; reserve = 7 };
      secret = seed;
    } =
      ground arith in
    rw same (record { classical = omega arith; reserve = omega arith })

pub platform-KeyLaws : KeyLaws platform
platform-KeyLaws = record {
  valid = λ seed pair e. refl;
  fits = platform-fits;
  in_range = λ k h. h.classical;
}

new_deposit_address-repeated_example : SameAccount account repeated × (restarted.db ≡ restarted.db)
new_deposit_address-repeated_example =
    new_deposit_address-repeated platform platform-Codec platform-KeyLaws world world "customer-42"
      (started empty) opened restarted
      (record restarted { clock = 2; trace = watch custody 1 "customer-42" ∷ [] }) account repeated
      first_call in_between second_call

new_address-IsGapless_example : Ends (new_address platform world "" "change") opened IsGapless
new_address-IsGapless_example = new_address-IsGapless platform world "" "change" opened (refl, tt)

Yields-new_address_example :
    Yields
      (new_address platform world "" "change")
      opened
      (λ a s'. IsAllocated platform "" "change" opened a s'.db × (s'.master ≡ opened.master))
Yields-new_address_example = Yields-new_address platform world "" "change" opened

known : address_by_reference platform "customer-42" opened.db ≡ ok (some recorded)
unfolding address_by_reference be_bytes be_value parse
known = refl

new_deposit_address-known_example :
    ((new_deposit_address platform world "customer-42" opened).1.db ≡ opened.db)
    × ((v : AddressView) (s' : Daemon)
        → new_deposit_address platform world "customer-42" opened ≡ (ok v, s')
        → v ≡ view_address platform recorded)
    × ((master : Option Bytes)
        → (new_deposit_address platform world "customer-42" (record opened { master = master })).0
          ≡ (new_deposit_address platform world "customer-42" opened).0)
new_deposit_address-known_example =
    new_deposit_address-known platform world "customer-42" recorded opened known
