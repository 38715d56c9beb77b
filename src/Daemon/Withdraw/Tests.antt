-- ===== src/Daemon/Withdraw/Tests.antt =====
-- A withdrawal that is carried out, and one that is repeated.
use qday_walletd.Common.{
  ◌⊎◌, Elem, ◌≡◌, refl, Bool, true, false, none, some, List, [], ◌∷◌, ◌++◌, be_bytes, be_value, All,
  text_bytes,
}
use qday_walletd.Types.{
  ok, SiacoinElement, Transaction, unsigned, other, add_with_overflow, add, sub,
}
use qday_walletd.Sample.{platform, print, parse, encode, encode_inputs, encode_outputs}
use qday_walletd.Derive.{keys}
use qday_walletd.Meta.Tables.{AddressRow, Db, empty, order_by}
use qday_walletd.Meta.Addresses.{next_index, add_address, address_by_hash}
use qday_walletd.Meta.Withdrawals.{Withdrawal, withdrawal, add_withdrawal}
use qday_walletd.Daemon.Inputs.{valid_request_id, parse_positive_currency, default_fee}
use qday_walletd.Meta.Swaps.{SwapKey, add_swap_key, swap_key_row}
use qday_walletd.Meta.Writes.{Write, Writes, none_made, then_write, key_added}
use qday_walletd.Daemon.Machine.{World, Daemon, machine, Effect, submit, add_pool}
use qday_walletd.Daemon.Sample.{world, started, tip, tip_state}
use qday_walletd.Daemon.Chain.{network_synced, broadcast}
use qday_walletd.Daemon.Outputs.{spendable_outputs}
use qday_walletd.Daemon.Signing.{signature_for}
use qday_walletd.Daemon.Transfer.{
  choose, change_outputs, perform_defend_work, sign_inputs, build_custody_transfer,
}
use qday_walletd.Daemon.Wallet.{master_seed, register_address, new_address}
use qday_walletd.Daemon.Steps.{Yields}
use qday_walletd.Daemon.Outputs.Fresh.{IsFree, IsListed, Yields-spendable_outputs}
use qday_walletd.Daemon.Transfer.Balance.{IsTransfer, Yields-build_custody_transfer}
use qday_walletd.Meta.Withdrawals.Bound.{IsBound}
use qday_walletd.Daemon.Withdraw.Known.{SameJournal, IsSameRequest, create_withdrawal-known}
use qday_walletd.Daemon.Withdraw.Once.{Yields-create_withdrawal, create_withdrawal-once}
use qday_walletd.Daemon.Journaled.{HasWithdrawal, AllSubmitted}
use qday_walletd.Daemon.Withdraw.Journaled.{create_withdrawal-HasWithdrawal}
use qday_walletd.Daemon.Withdraw.Paid.{IsPaid, create_withdrawal-IsPaid}
use qday_walletd.Daemon.Withdraw.{
  WithdrawalRequest, WithdrawalView, withdrawal_view, note_error, broadcast_added,
  submit_withdrawal, withdraw, create_withdrawal,
}

abbrev coin : SiacoinElement
coin = record { id = 77; output = record { value = 9; address = 1 }; maturity_height = 2 }

abbrev pub funded_world : World
funded_world = record world { unspent = λ _ offset limit. ok (coin ∷ [], tip) }

abbrev owner_row : AddressRow
owner_row = record {
  child_index = 0;
  address = ".";
  public_keys = be_bytes 32 1 ++ be_bytes 32 7;
  reference = some "customer-42";
  kind = "deposit";
  created_at = 7;
}

abbrev pub funded : Daemon
funded = started (record empty { addresses = owner_row ∷ [] })

abbrev pub request : WithdrawalRequest
request = record {
  request_id = "order-9";
  destination = "....";
  amount_atomic = "...";
  fee_atomic = "..";
  expected_unit_atomic = ".";
}

abbrev pub payment : Transaction
payment = record {
  inputs = record { parent = coin; satisfied_policy = unsigned (other 1) } ∷ [];
  outputs = record { value = 3; address = 4 } ∷ record { value = 4; address = 2 } ∷ [];
  miner_fee = 2;
  arbitrary_data = 3 ∷ [];
}

abbrev pub shown : WithdrawalView
shown = record {
  request_id = "order-9";
  kind = "withdrawal";
  transaction_id = ".....";
  destination = "....";
  amount = record { atomic = "..."; qday = "..." };
  fee = record { atomic = ".."; qday = ".." };
  basis = "....................";
  status = "queued";
  confirmations = 0;
  block_height = none;
  block_id = "";
  created_at = 7_000_000_000;
  last_error = "";
}

abbrev pub after : Daemon
after = (create_withdrawal platform funded_world request funded).1

-- The request pays 3 out of an output of 9 at a fee of 2, and returns 4.
pub created : create_withdrawal platform funded_world request funded ≡ (ok (shown, true), after)
unfolding create_withdrawal machine valid_request_id text_bytes parse parse_positive_currency
    default_fee withdrawal withdraw master_seed network_synced print build_custody_transfer
    add_with_overflow spendable_outputs choose address_by_hash be_bytes be_value add sub order_by
    change_outputs new_address next_index keys add_address register_address perform_defend_work
    sign_inputs signature_for add_withdrawal encode encode_inputs encode_outputs submit_withdrawal
    add_pool broadcast_added broadcast note_error withdrawal_view
created = refl

-- What was submitted, and what the tables held then.
unfoldable pub submitted : List Effect → List (List Transaction)
submitted [] = []
submitted (submit db basis txns ∷ effects) = txns ∷ submitted effects
submitted (e ∷ effects) = submitted effects

pub one_payment : submitted after.trace ≡ (payment ∷ []) ∷ []
unfolding submitted create_withdrawal machine valid_request_id text_bytes parse
    parse_positive_currency default_fee withdrawal withdraw master_seed network_synced print
    build_custody_transfer add_with_overflow spendable_outputs choose address_by_hash be_bytes
    be_value add sub order_by change_outputs new_address next_index keys add_address
    register_address perform_defend_work sign_inputs signature_for add_withdrawal encode
    encode_inputs encode_outputs submit_withdrawal add_pool broadcast_added broadcast note_error
    withdrawal_view
one_payment = refl

bound : IsBound "order-9" after.db
bound =
    (Yields-create_withdrawal platform funded_world request funded).at (shown, true) after created

create_withdrawal-known_example :
    SameJournal after (create_withdrawal platform world request after).1
    × ((v : WithdrawalView × Bool) (t : Daemon)
        → create_withdrawal platform world request after ≡ (ok v, t)
        → (v.1 ≡ false)
          × ((r : Withdrawal) × (withdrawal platform "order-9" after.db ≡ ok (some r))
              × IsSameRequest platform request r))
create_withdrawal-known_example = create_withdrawal-known platform world request after bound

abbrev session : SwapKey
session = record {
  swap_id = "swap-1";
  public = record { classical = 3; reserve = 7 };
  created_at = 0;
}

-- A swap session is stored, and the daemon is restarted.
abbrev pub stored_later : Db
stored_later = record after.db { swap_keys = swap_key_row platform session ∷ [] }

pub session_stored : Write platform after.db stored_later
unfolding add_swap_key create_withdrawal machine valid_request_id text_bytes parse
    parse_positive_currency default_fee withdrawal withdraw master_seed network_synced print
    build_custody_transfer add_with_overflow spendable_outputs choose address_by_hash be_bytes
    be_value add sub order_by change_outputs new_address next_index keys add_address
    register_address perform_defend_work sign_inputs signature_for add_withdrawal encode
    encode_inputs encode_outputs submit_withdrawal add_pool broadcast_added broadcast note_error
    withdrawal_view
session_stored = key_added session refl

abbrev restarted : Daemon
restarted = record after { db = stored_later; master = none }

in_between : Writes platform after.db restarted.db
in_between = then_write none_made session_stored

create_withdrawal-once_example :
    SameJournal restarted (create_withdrawal platform world request restarted).1
    × ((v' : WithdrawalView × Bool) (t' : Daemon)
        → create_withdrawal platform world request restarted ≡ (ok v', t')
        → v'.1 ≡ false)
create_withdrawal-once_example =
    create_withdrawal-once platform funded_world world request request funded after restarted
      (shown, true) created in_between refl

create_withdrawal-HasWithdrawal_example :
    AllSubmitted
      (λ db basis txns.
        HasWithdrawal platform db basis txns ⊎ Elem (submit db basis txns) funded.trace)
      after
create_withdrawal-HasWithdrawal_example =
    create_withdrawal-HasWithdrawal platform funded_world request funded

create_withdrawal-IsPaid_example : IsPaid platform funded_world request shown
create_withdrawal-IsPaid_example =
    create_withdrawal-IsPaid platform funded_world request funded after (shown, true) created refl

Yields-build_custody_transfer_example :
    Yields
      (build_custody_transfer platform funded_world tip_state (1 ∷ []) 4 3 2)
      funded
      (λ txn _. IsTransfer platform funded_world tip_state [] 4 3 2 txn)
Yields-build_custody_transfer_example =
    Yields-build_custody_transfer platform funded_world tip_state (1 ∷ []) 4 3 2 funded

Yields-spendable_outputs_example :
    Yields
      (spendable_outputs platform funded_world tip_state)
      funded
      (λ r _. All (λ e. IsFree platform tip_state [] e × IsListed funded_world tip_state e) r)
Yields-spendable_outputs_example = Yields-spendable_outputs platform funded_world tip_state funded
