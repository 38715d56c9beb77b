-- ===== src/Meta/Writes.antt =====
-- internal/meta/store.go and swap.go: the statements of Store that change a table, in any order. No
-- method of Store deletes a row.
pub mod Kept
pub mod Once
mod Tests
use qday_walletd.Common.{
  String, ◌≡◌, refl, Bool, true, Option, none, some, List, [], ◌∷◌, ◌++◌, any, any-append, arith,
  Bool-cases, inl, inr, Bytes,
}
use qday_walletd.Types.{Platform, Transaction, ChainIndex, Result-cases, ok}
use qday_walletd.Meta.Tables.{Db}
use qday_walletd.Meta.Transactions.{update_rows}
use qday_walletd.Meta.Addresses.{Address, address_by_reference, add_address}
use qday_walletd.Meta.Addresses.RoundTrip.{add_address-inv, add_address-keeps}
use qday_walletd.Meta.Withdrawals.{
  Withdrawal, has_request_id, add_withdrawal, update_withdrawal, set_withdrawal_confirmation,
  withdrawal_row,
}
use qday_walletd.Meta.Withdrawals.RoundTrip.{add_withdrawal-inv, update_row, update_withdrawal-inv}
use qday_walletd.Meta.Withdrawals.Watching.{confirm_row, set_withdrawal_confirmation-inv}
use qday_walletd.Meta.Withdrawals.Bound.{IsBound}
use qday_walletd.Meta.Swaps.{Swap, SwapKey, add_swap, add_swap_key, swap_key_row}
use qday_walletd.Meta.Swaps.Contracts.{add_swap-inv}
use qday_walletd.Meta.Actions.{
  SwapAction, has_action_id, is_action_of, add_swap_action, update_swap_action,
  set_swap_action_confirmation, swap_action_row,
}
use qday_walletd.Meta.Actions.RoundTrip.{add_swap_action-inv}
use qday_walletd.Meta.Actions.Updates.{
  set_swap_action_confirmation-inv, update_swap_action-inv, confirm_action_row, update_action_row,
}

module _ (p : Platform) where
  -- One statement that took effect.
  pub data Write (db db' : Db) : Type 0 where
    address_added : (a : Address) → add_address p a db ≡ ok db' → Write db db'
    withdrawal_added : (r : Withdrawal) → add_withdrawal p r db ≡ ok db' → Write db db'
    withdrawal_updated :
        (k : String) (basis : ChainIndex) (txn : Transaction) (last : String)
        → update_withdrawal p k basis txn last db ≡ ok db'
        → Write db db'
    withdrawal_confirmed :
        (k : String) (index : Option ChainIndex)
        → set_withdrawal_confirmation k index db ≡ ok db'
        → Write db db'
    key_added : (k : SwapKey) → add_swap_key p k db ≡ ok db' → Write db db'
    swap_added : (s : Swap) → add_swap p s db ≡ ok db' → Write db db'
    action_added : (a : SwapAction) → add_swap_action p a db ≡ ok db' → Write db db'
    action_updated :
        (k : String) (basis : ChainIndex) (txn : Transaction) (last : String)
        → update_swap_action p k basis txn last db ≡ ok db'
        → Write db db'
    action_confirmed :
        (k : String) (index : Option ChainIndex)
        → set_swap_action_confirmation k index db ≡ ok db'
        → Write db db'

  -- Any number of them.
  pub data Writes (db : Db) : Db → Type 0 where
    none_made : Writes db db
    then_write : {db' db'' : Db} → Writes db db' → Write db' db'' → Writes db db''
