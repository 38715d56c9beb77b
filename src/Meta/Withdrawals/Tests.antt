-- ===== src/Meta/Withdrawals/Tests.antt =====
-- Runs of the journal of withdrawals, and its theorems at concrete records.
use qday_walletd.Common.{
  ◌≡◌, refl, none, some, [], ◌∷◌, arith, String, be_bytes, be_value, Bytes, Elem,
}
use qday_walletd.Types.{ok, err, failure, Transaction, ChainIndex}
use qday_walletd.Sample.{platform, platform-Codec, print, parse, encode, decode}
use qday_walletd.Meta.Tables.{WithdrawalRow, Db, empty}
use qday_walletd.Meta.Transactions.{decode_transaction, scan_confirmation}
use qday_walletd.Meta.Withdrawals.{
  Withdrawal, add_withdrawal, withdrawal, update_withdrawal, set_withdrawal_confirmation,
  rebroadcast_candidates,
}
use qday_walletd.Meta.Withdrawals.RoundTrip.{
  IsStorable, add_withdrawal-withdrawal, update_withdrawal-withdrawal,
}
use qday_walletd.Meta.Withdrawals.Watching.{
  IsWatched, set_withdrawal_confirmation-withdrawal, rebroadcast_candidates-exact,
}

abbrev txn : Transaction
txn = record {
  inputs = [];
  outputs = record { value = 2; address = 9 } ∷ [];
  miner_fee = 1;
  arbitrary_data = [];
}

abbrev raw : Bytes
raw = 1 ∷ 0 ∷ 0 ∷ 2 ∷ 9 ∷ []

abbrev order : Withdrawal
order = record {
  request_id = "order-9";
  kind = "withdrawal";
  transaction = txn;
  basis = record { height = 11; id = 3 };
  confirmed = none;
  destination = 9;
  amount = 2;
  fee = 1;
  created_at = 5_678_000_000_000;
  last_error = "";
}

abbrev order_row : WithdrawalRow
order_row = record {
  request_id = "order-9";
  kind = "withdrawal";
  transaction_blob = raw;
  basis_height = 11;
  basis_id = be_bytes 32 3;
  destination = ".........";
  amount_atomic = "..";
  fee_atomic = ".";
  created_at = 5678;
  last_error = "";
  confirmed_height = none;
  confirmed_block_id = none;
}

abbrev one_order : Db
one_order = record empty { withdrawals = order_row ∷ [] }

add_order : add_withdrawal platform order empty ≡ ok one_order
unfolding add_withdrawal print encode be_bytes
add_order = refl

order-IsStorable : IsStorable platform raw order
unfolding encode
order-IsStorable = record {
  encoded = refl;
  not_empty = omega arith;
  not_large = omega arith;
  basis_fits = omega arith;
  destination_fits = omega arith;
  amount_fits = omega arith;
  fee_fits = omega arith;
}

add_withdrawal-withdrawal_example : withdrawal platform "order-9" one_order ≡ ok (some order)
add_withdrawal-withdrawal_example =
    add_withdrawal-withdrawal platform platform-Codec raw order empty one_order order-IsStorable
      add_order

abbrev later : ChainIndex
later = record { height = 12; id = 4 }

abbrev moved : Db
moved = record empty {
  withdrawals =
      record order_row { basis_height = 12; basis_id = be_bytes 32 4; last_error = "temporary" }
      ∷ [];
}

update_order : update_withdrawal platform "order-9" later txn "temporary" one_order ≡ ok moved
unfolding update_withdrawal encode be_bytes
update_order = refl

moved-IsStorable : IsStorable platform raw (record order { basis = later })
unfolding encode
moved-IsStorable = record {
  encoded = refl;
  not_empty = omega arith;
  not_large = omega arith;
  basis_fits = omega arith;
  destination_fits = omega arith;
  amount_fits = omega arith;
  fee_fits = omega arith;
}

update_withdrawal-withdrawal_example :
    withdrawal platform "order-9" moved
    ≡ ok (some (record order { basis = later; last_error = "temporary" }))
update_withdrawal-withdrawal_example =
    update_withdrawal-withdrawal platform platform-Codec "order-9" "order-9" later txn raw
      "temporary" order one_order moved moved-IsStorable add_withdrawal-withdrawal_example
      update_order

abbrev confirmed_once : Db
confirmed_once = record empty {
  withdrawals =
      record order_row { confirmed_height = some 12; confirmed_block_id = some (be_bytes 32 4) }
      ∷ [];
}

confirm_order : set_withdrawal_confirmation "order-9" (some later) one_order ≡ ok confirmed_once
unfolding set_withdrawal_confirmation
confirm_order = refl

confirm_unknown :
    set_withdrawal_confirmation "order-8" none one_order ≡ err (failure "withdrawal does not exist")
unfolding set_withdrawal_confirmation
confirm_unknown = refl

set_withdrawal_confirmation-withdrawal_example :
    withdrawal platform "order-9" confirmed_once
    ≡ ok (some (record order { confirmed = some later }))
set_withdrawal_confirmation-withdrawal_example =
    set_withdrawal_confirmation-withdrawal platform "order-9" "order-9" (some later) order one_order
      confirmed_once (omega arith) add_withdrawal-withdrawal_example confirm_order

candidates_one : rebroadcast_candidates platform 1000 144 one_order ≡ ok (order ∷ [])
unfolding rebroadcast_candidates decode_transaction scan_confirmation encode decode be_bytes
    be_value parse
candidates_one = refl

-- The old confirmation is no longer watched.
candidates_none : rebroadcast_candidates platform 1000 144 confirmed_once ≡ ok []
unfolding rebroadcast_candidates
candidates_none = refl

rebroadcast_candidates-exact_example :
    ((w : Withdrawal) → Elem w (order ∷ []) → IsWatched 1000 144 w.confirmed)
    × ((request_id : String) (w : Withdrawal)
        → withdrawal platform request_id one_order ≡ ok (some w)
        → IsWatched 1000 144 w.confirmed
        → Elem w (order ∷ []))
rebroadcast_candidates-exact_example =
    rebroadcast_candidates-exact platform 1000 144 one_order candidates_one
