-- ===== src/Meta/Addresses/Tests.antt =====
-- Runs of the table of addresses, and its theorems at concrete records.
use qday_walletd.Common.{
  ℕ, ◌≡◌, ◌≢◌, refl, none, some, [], ◌∷◌, arith, String, be_bytes, be_value, ◌++◌,
}
use qday_walletd.Types.{ok, err, failure, map_result}
use qday_walletd.Sample.{platform, platform-Codec, print, parse}
use qday_walletd.Meta.Tables.{AddressRow, Db, empty, order_by}
use qday_walletd.Meta.Addresses.Pages.{all_addresses_lem}
use qday_walletd.Meta.Addresses.{
  Address, add_address, address_by_index, address_by_hash, address_by_reference, next_index,
  all_addresses, decode_row, by_index,
}
use qday_walletd.Meta.Addresses.RoundTrip.{
  IsManaged, stored, add_address-lookups, add_address-keeps,
}

abbrev customer : Address
customer = record {
  index = 0;
  address = 5;
  public = record { classical = 5; reserve = 7 };
  reference = "customer-42";
  kind = "deposit";
  created_at = 1_234_500_000_000;
}

abbrev change : Address
change = record {
  index = 1;
  address = 6;
  public = record { classical = 6; reserve = 7 };
  reference = "";
  kind = "change";
  created_at = 0;
}

abbrev customer_row : AddressRow
customer_row = record {
  child_index = 0;
  address = ".....";
  public_keys = be_bytes 32 5 ++ be_bytes 32 7;
  reference = some "customer-42";
  kind = "deposit";
  created_at = 1234;
}

abbrev change_row : AddressRow
change_row = record {
  child_index = 1;
  address = "......";
  public_keys = be_bytes 32 6 ++ be_bytes 32 7;
  reference = none;
  kind = "change";
  created_at = 0;
}

abbrev one_row : Db
one_row = record empty { addresses = customer_row ∷ [] }

abbrev two_rows : Db
two_rows = record empty { addresses = customer_row ∷ change_row ∷ [] }

add_customer : add_address platform customer empty ≡ ok one_row
unfolding add_address print be_bytes
add_customer = refl

-- A second record of the same reference is refused.
add_twice :
    add_address platform (record change { reference = "customer-42" }) one_row
    ≡ err (failure "UNIQUE constraint failed: addresses")
unfolding add_address print be_bytes
add_twice = refl

next_after_one : next_index one_row ≡ 1
unfolding next_index
next_after_one = refl

list_one : all_addresses platform one_row ≡ ok (stored customer ∷ [])
unfolding all_addresses be_bytes be_value parse
list_one = refl

customer-IsManaged : IsManaged platform customer
customer-IsManaged = record {
  fits = record { classical = omega arith; reserve = omega arith };
  in_range = omega arith;
  valid = refl;
  derived = refl;
}

add_address-lookups_example :
    (address_by_index platform 0 one_row ≡ ok (some (stored customer)))
    × (address_by_hash platform 5 one_row ≡ ok (some (stored customer)))
    × (customer.reference ≢ ""
        → address_by_reference platform "customer-42" one_row ≡ ok (some (stored customer)))
add_address-lookups_example =
    add_address-lookups platform platform-Codec customer empty one_row customer-IsManaged
      add_customer

add_change : add_address platform change one_row ≡ ok two_rows
unfolding add_address print be_bytes
add_change = refl

add_address-keeps_example :
    ((i : ℕ)
      → address_by_index platform i one_row ≡ ok (some (stored customer))
      → address_by_index platform i two_rows ≡ ok (some (stored customer)))
    × ((h : ℕ)
        → address_by_hash platform h one_row ≡ ok (some (stored customer))
        → address_by_hash platform h two_rows ≡ ok (some (stored customer)))
    × ((s : String)
        → address_by_reference platform s one_row ≡ ok (some (stored customer))
        → address_by_reference platform s two_rows ≡ ok (some (stored customer)))
add_address-keeps_example =
    add_address-keeps platform change (stored customer) one_row two_rows add_change

all_addresses_lem_example :
    all_addresses platform two_rows
    ≡ map_result (decode_row platform) (order_by by_index two_rows.addresses)
all_addresses_lem_example = all_addresses_lem platform two_rows
