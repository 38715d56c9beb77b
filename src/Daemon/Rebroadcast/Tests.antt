-- ===== src/Daemon/Rebroadcast/Tests.antt =====
-- A round of the loop at a journal with one withdrawal, and at a withdrawal that is confirmed.
use qday_walletd.Common.{◌≡◌, refl, none, some, [], ◌∷◌, be_bytes}
use qday_walletd.Types.{Transaction}
use qday_walletd.Sample.{platform}
use qday_walletd.Meta.Tables.{empty}
use qday_walletd.Meta.Withdrawals.{Withdrawal}
use qday_walletd.Daemon.Machine.{Daemon}
use qday_walletd.Daemon.Sample.{world, started, tip}
use qday_walletd.Daemon.Rebroadcast.{Entry, withdrawal_entry, follow, rebroadcast}
use qday_walletd.Daemon.Rebroadcast.Fixed.{SameOrders, rebroadcast-SameOrders}
use qday_walletd.Daemon.Rebroadcast.Buried.{follow-trace}

abbrev one_order : Daemon
one_order = started (record empty {
  withdrawals =
      record {
        request_id = "order-9";
        kind = "withdrawal";
        transaction_blob = 1 ∷ 0 ∷ 0 ∷ 5 ∷ 9 ∷ [];
        basis_height = 12;
        basis_id = be_bytes 32 4;
        destination = "....";
        amount_atomic = "...";
        fee_atomic = ".";
        created_at = 3;
        last_error = "";
        confirmed_height = none;
        confirmed_block_id = none;
      }
      ∷ [];
})

rebroadcast-SameOrders_example : SameOrders one_order.db (rebroadcast platform world one_order).1.db
rebroadcast-SameOrders_example = rebroadcast-SameOrders platform world one_order

abbrev payment : Transaction
payment = record {
  inputs = [];
  outputs = record { value = 5; address = 9 } ∷ [];
  miner_fee = 1;
  arbitrary_data = [];
}

abbrev confirmed_order : Withdrawal
confirmed_order = record {
  request_id = "order-9";
  kind = "withdrawal";
  transaction = payment;
  basis = record { height = 12; id = 4 };
  confirmed = some (record { height = 15; id = 2000 });
  destination = 4;
  amount = 3;
  fee = 1;
  created_at = 3;
  last_error = "";
}

abbrev entry : Entry
entry = withdrawal_entry platform world tip confirmed_order

follow-trace_example : (follow platform world tip entry one_order).1.trace ≡ []
follow-trace_example =
    follow-trace platform world tip entry (record { height = 15; id = 2000 }) one_order refl
      (λ t. refl)
