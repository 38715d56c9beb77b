-- ===== src/Daemon/Deposits/Tests.antt =====
-- A payment to an address that was handed out, and a payout that is not the daemon's.
use qday_walletd.Common.{
  ℕ, ◌≡◌, refl, true, some, List, [], ◌∷◌, ◌++◌, take, drop, be_bytes, be_value, decimal,
}
use qday_walletd.Types.{ok, SiacoinElement, Transaction}
use qday_walletd.Sample.{platform, print, parse}
use qday_walletd.Meta.Tables.{AddressRow, empty}
use qday_walletd.Meta.Addresses.{address_by_hash}
use qday_walletd.Daemon.Machine.{World, Daemon, Event, transaction_data, payout_data, machine}
use qday_walletd.Daemon.Sample.{world, started, tip_state}
use qday_walletd.Daemon.Deposits.{
  Deposit, is_internal, output_deposits, content_deposits, event_deposits, take_events,
  deposit_pages, deposits,
}
use qday_walletd.Daemon.Deposits.Refined.{IsPage, deposits-IsPage}

abbrev owner_row : AddressRow
owner_row = record {
  child_index = 0;
  address = ".";
  public_keys = be_bytes 32 1 ++ be_bytes 32 7;
  reference = some "customer-42";
  kind = "deposit";
  created_at = 7;
}

abbrev funded : Daemon
funded = started (record empty { addresses = owner_row ∷ [] })

abbrev payment : Transaction
payment = record {
  inputs = [];
  outputs = record { value = 5; address = 4 } ∷ record { value = 9; address = 1 } ∷ [];
  miner_fee = 1;
  arbitrary_data = [];
}

abbrev stray : SiacoinElement
stray = record { id = 78; output = record { value = 6; address = 4 }; maturity_height = 12 }

abbrev paid : Event
paid = record {
  id = 4;
  kind = "v2Transaction";
  index = record { height = 12; id = 2 };
  confirmations = 1;
  maturity_height = 20;
  timestamp = 7;
  content = transaction_data payment;
}

abbrev strayed : Event
strayed = record paid { id = 51; kind = "miner"; content = payout_data stray }

abbrev history : List Event
history = strayed ∷ paid ∷ strayed ∷ []

abbrev observed_world : World
observed_world = record world {
  wallet_events = λ _ offset limit. ok (take limit (drop offset history));
}

abbrev first_page : List Deposit × ℕ
first_page = (
  record {
    id = "...:1";
    kind = "v2Transaction";
    event_id = "....";
    transaction_id = "...";
    output_index = some 1;
    address = ".";
    reference = "customer-42";
    amount = record { atomic = "........."; qday = "........." };
    block_height = 12;
    block_id = "..";
    confirmations = 1;
    maturity_height = 20;
    timestamp = 7;
    creditable = true;
  }
      ∷ [],
  2,
)

pages :
    deposits platform observed_world 1 0 funded
    ≡ (ok first_page, (deposits platform observed_world 1 0 funded).1)
unfolding deposits machine deposit_pages take_events event_deposits content_deposits is_internal
    output_deposits address_by_hash be_bytes be_value print parse decimal
pages = refl

deposits-IsPage_example : IsPage platform funded.db tip_state 1 0 history first_page
deposits-IsPage_example =
    deposits-IsPage platform observed_world history (λ t offset n. refl) 1 0 funded
      (deposits platform observed_world 1 0 funded).1 first_page pages
