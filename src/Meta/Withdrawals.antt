-- ===== src/Meta/Withdrawals.antt =====
-- internal/meta/store.go: the journal of withdrawals and automatic DEFEND transactions.
pub mod RoundTrip
pub mod Watching
pub mod Bound
mod Tests
use Prim.Native.Nat.{Ordering}
use Prim.Native.String.{compare}
use qday_walletd.Common.{
  ℕ, String, Bool, true, false, not, ◌&&◌, ◌||◌, Option, none, some, List, [], ◌∷◌, ◌++◌, Bytes,
  be_bytes, be_value, leb, ltb, ◌==◌, str_eq, any, find_first, keep, length, if◌then◌else◌,
}
use qday_walletd.Types.{
  Platform, Transaction, ChainIndex, Currency, Result, ok, err, failure, ◌>>=◌, ◌>>◌, guard,
  map_result,
}
use qday_walletd.Meta.Tables.{WithdrawalRow, Db, word_arg, order_by, limit_offset, unix, from_unix}
use qday_walletd.Meta.Transactions.{
  decode_transaction, scan_confirmation, confirmed_height, confirmed_id, is_candidate,
  cutoff_height, update_rows, affected,
}

pub record Withdrawal : Type 0 where
  pub request_id : String
  pub kind : String
  pub transaction : Transaction
  pub basis : ChainIndex
  pub confirmed : Option ChainIndex
  pub destination : ℕ
  pub amount : Currency
  pub fee : Currency
  pub created_at : ℕ
  pub last_error : String

abbrev pub has_request_id : String → WithdrawalRow → Bool
has_request_id request_id r = str_eq r.request_id request_id

-- INSERT INTO withdrawals: the CHECK and PRIMARY KEY constraints of the table.
insert_withdrawal : WithdrawalRow → Db → Result Db
insert_withdrawal row db = do
  guard (str_eq row.kind "withdrawal" || str_eq row.kind "defend")
      (failure "CHECK constraint failed: kind IN ('withdrawal','defend')")
  guard (length row.basis_id == 32) (failure "CHECK constraint failed: length(basis_id) = 32")
  guard (not (any (has_request_id row.request_id) db.withdrawals))
      (failure "UNIQUE constraint failed: withdrawals.request_id")
  ok (record db { withdrawals = db.withdrawals ++ row ∷ [] })

-- UPDATE withdrawals … WHERE request_id=?, which must change one row.
update_withdrawals : String → (WithdrawalRow → WithdrawalRow) → Db → Result Db
update_withdrawals request_id f db =
    if affected (has_request_id request_id) db.withdrawals == 1
    then ok (record db { withdrawals = update_rows (has_request_id request_id) f db.withdrawals })
    else err (failure "withdrawal does not exist")

-- ORDER BY created_at DESC,request_id DESC
abbrev newest_first : WithdrawalRow → WithdrawalRow → Bool
newest_first r s =
    if r.created_at == s.created_at
    then elim (compare r.request_id s.request_id) [ Ordering.lt ↦ false | _ ↦ true ]
    else ltb s.created_at r.created_at

-- ORDER BY created_at
abbrev pub oldest_first : WithdrawalRow → WithdrawalRow → Bool
oldest_first r s = leb r.created_at s.created_at

abbrev pub null_height : Option ChainIndex → Result (Unit {0})
null_height none = ok tt
null_height (some index) = word_arg index.height

unfoldable pub set_withdrawal_confirmation : String → Option ChainIndex → Db → Result Db
unfolding update_withdrawals
set_withdrawal_confirmation request_id index db = do
  null_height index
  update_withdrawals request_id
      (λ r. record r {
        confirmed_height = confirmed_height index;
        confirmed_block_id = confirmed_id index;
      })
      db

module _ (p : Platform) where
  -- What `AddWithdrawal` binds to the columns; the confirmation columns are left NULL.
  abbrev pub withdrawal_row : Bytes → Withdrawal → WithdrawalRow
  withdrawal_row raw w = record {
    request_id = w.request_id;
    kind = w.kind;
    transaction_blob = raw;
    basis_height = w.basis.height;
    basis_id = be_bytes 32 w.basis.id;
    destination = p.address_string w.destination;
    amount_atomic = p.exact_string w.amount;
    fee_atomic = p.exact_string w.fee;
    created_at = unix w.created_at;
    last_error = w.last_error;
    confirmed_height = none;
    confirmed_block_id = none;
  }

  unfoldable pub add_withdrawal : Withdrawal → Db → Result Db
  unfolding insert_withdrawal
  add_withdrawal w db = do
    raw ← p.encode_transaction w.transaction
    word_arg w.basis.height
    insert_withdrawal (withdrawal_row raw w) db

  pub scan_withdrawal : WithdrawalRow → Result Withdrawal
  scan_withdrawal r = do
    guard (length r.basis_id == 32) (failure "invalid stored withdrawal basis")
    confirmed ←
        scan_confirmation "invalid stored withdrawal confirmation" r.confirmed_height
          r.confirmed_block_id
    transaction ← decode_transaction p r.transaction_blob
    destination ← p.parse_address r.destination
    amount ← p.parse_currency r.amount_atomic
    fee ← p.parse_currency r.fee_atomic
    ok (record {
      request_id = r.request_id;
      kind = r.kind;
      transaction = transaction;
      basis = record { height = r.basis_height; id = be_value r.basis_id };
      confirmed = confirmed;
      destination = destination;
      amount = amount;
      fee = fee;
      created_at = from_unix r.created_at;
      last_error = r.last_error;
    })

  scan_found : Option WithdrawalRow → Result (Option Withdrawal)
  unfolding scan_withdrawal
  scan_found none = ok none
  scan_found (some r) = do w ← scan_withdrawal r; ok (some w)

  unfoldable pub withdrawal : String → Db → Result (Option Withdrawal)
  unfolding scan_found
  withdrawal request_id db = scan_found (find_first (has_request_id request_id) db.withdrawals)

  unfoldable pub withdrawals : ℕ → ℕ → Db → Result (List Withdrawal)
  unfolding scan_withdrawal order_by
  withdrawals limit offset db = do
    guard (not (ltb limit 1 || ltb 200 limit)) (failure "invalid withdrawal pagination")
    map_result scan_withdrawal (limit_offset limit offset (order_by newest_first db.withdrawals))

  unfoldable pub rebroadcast_candidates : ℕ → ℕ → Db → Result (List Withdrawal)
  unfolding scan_withdrawal order_by
  rebroadcast_candidates tip_height reorg_window db = do
    word_arg (cutoff_height tip_height reorg_window)
    map_result scan_withdrawal (
        order_by oldest_first (
          keep (λ r. is_candidate (cutoff_height tip_height reorg_window) r.confirmed_height)
            db.withdrawals))

  unfoldable pub update_withdrawal : String → ChainIndex → Transaction → String → Db → Result Db
  unfolding update_withdrawals
  update_withdrawal request_id basis transaction last_error db = do
    raw ← p.encode_transaction transaction
    word_arg basis.height
    update_withdrawals request_id
        (λ r. record r {
          transaction_blob = raw;
          basis_height = basis.height;
          basis_id = be_bytes 32 basis.id;
          last_error = last_error;
        })
        db
