-- ===== src/Meta/Swaps/Tests.antt =====
-- Runs of the table of contracts, and its theorems at a concrete contract.
use qday_walletd.Common.{◌≡◌, refl, some, [], ◌∷◌, ◌++◌, arith, be_bytes}
use qday_walletd.Types.{ok, err, failure}
use qday_walletd.Sample.{platform, platform-Codec}
use qday_walletd.Meta.Tables.{Db, empty}
use qday_walletd.Meta.Swaps.{Swap, SwapKey, swap_contract, swap_row, add_swap, add_swap_key, swap}
use qday_walletd.Meta.Swaps.Contracts.{IsContract, stored, add_swap-swap, swap-contract_address}

abbrev session : SwapKey
session = record {
  swap_id = "swap-1";
  public = record { classical = 3; reserve = 7 };
  created_at = 0;
}

abbrev contract : Swap
contract = record {
  swap_id = "swap-1";
  role = "recipient";
  recipient = record { classical = 3; reserve = 7 };
  refund = record { classical = 4; reserve = 8 };
  secret_hash = 2;
  refund_height = 50;
  address = 1002;
  created_at = 3_500_000_000;
}

abbrev keyed : Db
keyed = record empty {
  swap_keys =
      record { swap_id = "swap-1"; public_keys = be_bytes 32 3 ++ be_bytes 32 7; created_at = 0 }
      ∷ [];
}

add_session : add_swap_key platform session empty ≡ ok keyed
unfolding add_swap_key be_bytes
add_session = refl

-- Without the session keys the contract is refused.
add_unkeyed : add_swap platform contract empty ≡ err (failure "FOREIGN KEY constraint failed")
unfolding add_swap be_bytes
add_unkeyed = refl

abbrev registered : Db
registered = record keyed { swaps = swap_row platform contract ∷ [] }

add_contract : add_swap platform contract keyed ≡ ok registered
unfolding add_swap be_bytes
add_contract = refl

contract-IsContract : IsContract platform contract
contract-IsContract = record {
  recipient_fits = record { classical = omega arith; reserve = omega arith };
  refund_fits = record { classical = omega arith; reserve = omega arith };
  recipient_valid = refl;
  refund_valid = refl;
  hash_fits = omega arith;
  address_fits = omega arith;
  derived = refl;
}

add_swap-swap_example : swap platform "swap-1" registered ≡ ok (some (stored contract))
add_swap-swap_example =
    add_swap-swap platform platform-Codec contract keyed registered contract-IsContract add_contract

swap-contract_address_example :
    (platform.contract_address (swap_contract (stored contract)) ≡ ok 1002)
    × (contract.swap_id ≡ "swap-1")
swap-contract_address_example =
    swap-contract_address platform "swap-1" registered (stored contract) add_swap-swap_example
