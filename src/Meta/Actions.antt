-- ===== src/Meta/Actions.antt =====
-- internal/meta/swap.go: the journal of swap actions.
pub mod RoundTrip
pub mod Updates
pub mod Tests
use Prim.Native.String.{compare}
use Prim.Native.Nat.{Ordering}
use qday_walletd.Common.{
  ℕ, String, Bool, true, false, not, ◌&&◌, ◌||◌, Option, none, some, List, [], ◌∷◌, ◌++◌, Bytes,
  be_bytes, be_value, leb, ltb, ◌==◌, str_eq, any, find_first, keep, length, if◌then◌else◌,
}
use qday_walletd.Types.{
  Platform, Transaction, ChainIndex, Currency, Result, ok, err, failure, ◌>>=◌, ◌>>◌, guard,
  map_result,
}
use qday_walletd.Meta.Tables.{SwapActionRow, SwapRow, Db, word_arg, order_by, unix, from_unix}
use qday_walletd.Meta.Transactions.{
  decode_transaction, scan_confirmation, confirmed_height, confirmed_id, is_candidate,
  cutoff_height, update_rows, affected,
}
use qday_walletd.Meta.Withdrawals.{null_height}
use qday_walletd.Meta.Swaps.{has_swap_id}

pub record SwapAction : Type 0 where
  pub action_id : String
  pub swap_id : String
  pub kind : String
  pub output_id : String
  pub transaction : Transaction
  pub basis : ChainIndex
  pub confirmed : Option ChainIndex
  pub destination : ℕ
  pub amount : Currency
  pub fee : Currency
  pub created_at : ℕ
  pub last_error : String

abbrev pub has_action_id : String → SwapActionRow → Bool
has_action_id action_id r = str_eq r.action_id action_id

-- The columns of UNIQUE(swap_id,kind,output_id).
abbrev pub is_action_of : String → String → String → SwapActionRow → Bool
is_action_of swap_id kind output_id r =
    str_eq r.swap_id swap_id && (str_eq r.kind kind && str_eq r.output_id output_id)

-- The CHECK, UNIQUE and PRIMARY KEY constraints of swap_actions, and its foreign key.
insert_swap_action : SwapActionRow → Db → Result Db
insert_swap_action row db = do
  guard (str_eq row.kind "fund" || str_eq row.kind "claim" || str_eq row.kind "refund")
      (failure "CHECK constraint failed: kind IN ('fund','claim','refund')")
  guard (length row.basis_id == 32) (failure "CHECK constraint failed: length(basis_id) = 32")
  guard (not (any (has_action_id row.action_id) db.swap_actions))
      (failure "UNIQUE constraint failed: swap_actions.action_id")
  guard (not (any (is_action_of row.swap_id row.kind row.output_id) db.swap_actions))
      (failure "UNIQUE constraint failed: swap_actions.swap_id, kind, output_id")
  guard (any (has_swap_id row.swap_id) db.swaps) (failure "FOREIGN KEY constraint failed")
  ok (record db { swap_actions = db.swap_actions ++ row ∷ [] })

update_swap_actions : String → (SwapActionRow → SwapActionRow) → Db → Result Db
update_swap_actions action_id f db =
    if affected (has_action_id action_id) db.swap_actions == 1
    then ok (record db { swap_actions = update_rows (has_action_id action_id) f db.swap_actions })
    else err (failure "atomic-swap action does not exist")

-- ORDER BY created_at,action_id
abbrev pub first_action_first : SwapActionRow → SwapActionRow → Bool
first_action_first r s =
    if r.created_at == s.created_at
    then elim (compare r.action_id s.action_id) [ Ordering.gt ↦ false | _ ↦ true ]
    else ltb r.created_at s.created_at

-- ORDER BY created_at
abbrev pub oldest_action_first : SwapActionRow → SwapActionRow → Bool
oldest_action_first r s = leb r.created_at s.created_at

unfoldable pub set_swap_action_confirmation : String → Option ChainIndex → Db → Result Db
unfolding update_swap_actions
set_swap_action_confirmation action_id index db = do
  null_height index
  update_swap_actions action_id
      (λ r. record r {
        confirmed_height = confirmed_height index;
        confirmed_block_id = confirmed_id index;
      })
      db

module _ (p : Platform) where
  abbrev pub swap_action_row : Bytes → SwapAction → SwapActionRow
  swap_action_row raw a = record {
    action_id = a.action_id;
    swap_id = a.swap_id;
    kind = a.kind;
    output_id = a.output_id;
    transaction_blob = raw;
    basis_height = a.basis.height;
    basis_id = be_bytes 32 a.basis.id;
    destination = p.address_string a.destination;
    amount_atomic = p.exact_string a.amount;
    fee_atomic = p.exact_string a.fee;
    created_at = unix a.created_at;
    last_error = a.last_error;
    confirmed_height = none;
    confirmed_block_id = none;
  }

  unfoldable pub add_swap_action : SwapAction → Db → Result Db
  unfolding insert_swap_action
  add_swap_action a db = do
    raw ← p.encode_transaction a.transaction
    word_arg a.basis.height
    insert_swap_action (swap_action_row raw a) db

  pub scan_swap_action : SwapActionRow → Result SwapAction
  scan_swap_action r = do
    guard (length r.basis_id == 32) (failure "invalid stored atomic-swap action basis")
    confirmed ←
        scan_confirmation "invalid stored atomic-swap action confirmation" r.confirmed_height
          r.confirmed_block_id
    transaction ← decode_transaction p r.transaction_blob
    destination ← p.parse_address r.destination
    amount ← p.parse_currency r.amount_atomic
    fee ← p.parse_currency r.fee_atomic
    ok (record {
      action_id = r.action_id;
      swap_id = r.swap_id;
      kind = r.kind;
      output_id = r.output_id;
      transaction = transaction;
      basis = record { height = r.basis_height; id = be_value r.basis_id };
      confirmed = confirmed;
      destination = destination;
      amount = amount;
      fee = fee;
      created_at = from_unix r.created_at;
      last_error = r.last_error;
    })

  scan_action_found : Option SwapActionRow → Result (Option SwapAction)
  unfolding scan_swap_action
  scan_action_found none = ok none
  scan_action_found (some r) = do a ← scan_swap_action r; ok (some a)

  unfoldable pub swap_action : String → String → String → Db → Result (Option SwapAction)
  unfolding scan_action_found
  swap_action swap_id kind output_id db =
      scan_action_found (find_first (is_action_of swap_id kind output_id) db.swap_actions)

  unfoldable pub swap_actions : String → Db → Result (List SwapAction)
  unfolding scan_swap_action order_by
  swap_actions swap_id db =
      map_result scan_swap_action
        (order_by first_action_first (keep (λ r. str_eq r.swap_id swap_id) db.swap_actions))

  unfoldable pub swap_action_rebroadcast_candidates : ℕ → ℕ → Db → Result (List SwapAction)
  unfolding scan_swap_action order_by
  swap_action_rebroadcast_candidates tip_height reorg_window db = do
    word_arg (cutoff_height tip_height reorg_window)
    map_result scan_swap_action (
        order_by oldest_action_first (
          keep (λ r. is_candidate (cutoff_height tip_height reorg_window) r.confirmed_height)
            db.swap_actions))

  unfoldable pub update_swap_action : String → ChainIndex → Transaction → String → Db → Result Db
  unfolding update_swap_actions
  update_swap_action action_id basis transaction last_error db = do
    raw ← p.encode_transaction transaction
    word_arg basis.height
    update_swap_actions action_id
        (λ r. record r {
          transaction_blob = raw;
          basis_height = basis.height;
          basis_id = be_bytes 32 basis.id;
          last_error = last_error;
        })
        db
