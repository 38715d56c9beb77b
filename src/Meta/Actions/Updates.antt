-- ===== src/Meta/Actions/Updates.antt =====
-- What the updates of the journal of swap actions do to its rows.
use qday_walletd.Common.{String, ◌≡◌, Option, none, some, arith, Bytes, be_bytes, inl, inr}
use qday_walletd.Types.{Platform, Transaction, ChainIndex, ok, Result-cases}
use qday_walletd.Meta.Tables.{Db, SwapActionRow}
use qday_walletd.Meta.Transactions.{update_rows, confirmed_height, confirmed_id}
use qday_walletd.Meta.Actions.{has_action_id, set_swap_action_confirmation, update_swap_action}

abbrev pub confirm_action_row : Option ChainIndex → SwapActionRow → SwapActionRow
confirm_action_row index r = record r {
  confirmed_height = confirmed_height index;
  confirmed_block_id = confirmed_id index;
}

abbrev pub update_action_row : Bytes → ChainIndex → String → SwapActionRow → SwapActionRow
update_action_row raw basis last r = record r {
  transaction_blob = raw;
  basis_height = basis.height;
  basis_id = be_bytes 32 basis.id;
  last_error = last;
}

pub set_swap_action_confirmation-inv :
    (k : String) (index : Option ChainIndex) (db db' : Db)
    → set_swap_action_confirmation k index db ≡ ok db'
    → db' ≡ record db {
      swap_actions = update_rows (has_action_id k) (confirm_action_row index) db.swap_actions;
    }
unfolding set_swap_action_confirmation
set_swap_action_confirmation-inv k none db db' e = ground arith
set_swap_action_confirmation-inv k (some index) db db' e = ground arith

pub update_swap_action-inv :
    (p : Platform) (k : String) (basis : ChainIndex) (txn : Transaction) (last : String)
    (db db' : Db)
    → update_swap_action p k basis txn last db ≡ ok db'
    → (raw : Bytes) × (p.encode_transaction txn ≡ ok raw)
      × (db' ≡ record db {
        swap_actions =
            update_rows (has_action_id k) (update_action_row raw basis last) db.swap_actions;
      })
unfolding update_swap_action
update_swap_action-inv p k basis txn last db db' e =
    elim (Result-cases (p.encode_transaction txn)) [
      | inl (raw, good) ↦ (raw, good, ground arith)
      | inr (b, bad) ↦ absurd (ground arith)
    ]
