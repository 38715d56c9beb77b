-- ===== src/Meta/Withdrawals/RoundTrip.antt =====
-- What the journal of withdrawals stores is what `Withdrawal` returns.
use qday_walletd.Common.{
  String, ◌^◌, ◌<◌, ◌≤◌, ◌≡◌, refl, Bool-cases, false, none, some, [], ◌∷◌, ◌++◌, arith, Bytes,
  be_bytes, be_value-be_bytes, length-be_bytes, length, any, find_first, find_first-snoc, str_eq,
  if◌then◌else◌, eq_refl, Option-cases, inl, inr,
}
use qday_walletd.Types.{Platform, Transaction, ChainIndex, currency_limit, ok, Result-cases}
use qday_walletd.Meta.Tables.{WithdrawalRow, Db, unix, from_unix}
use qday_walletd.Meta.Codec.{Codec}
use qday_walletd.Meta.Transactions.{
  max_transaction, decode_transaction-encoded, update_rows, find_first-update_rows,
  scan_confirmation,
}
use qday_walletd.Meta.Withdrawals.{
  Withdrawal, has_request_id, withdrawal_row, add_withdrawal, scan_withdrawal, scan_found,
  withdrawal, update_withdrawal,
}

-- The fields lie in the ranges of their types, and the encoded transaction, `raw`, in the size that
-- the decoder admits.
pub record IsStorable (p : Platform) (raw : Bytes) (w : Withdrawal) : Type 0 where
  pub encoded : p.encode_transaction w.transaction ≡ ok raw
  pub not_empty : 0 < length raw
  pub not_large : length raw ≤ max_transaction
  pub basis_fits : w.basis.id < 2 ^ 256
  pub destination_fits : w.destination < 2 ^ 256
  pub amount_fits : w.amount < currency_limit
  pub fee_fits : w.fee < currency_limit

-- A new record as the journal holds it: not confirmed, its time in whole seconds.
abbrev pub stored : Withdrawal → Withdrawal
stored w = record w { confirmed = none; created_at = from_unix (unix w.created_at) }

-- An accepted INSERT met no row of that request, and put its row at the end.
pub add_withdrawal-inv :
    (p : Platform) (w : Withdrawal) (db db' : Db)
    → add_withdrawal p w db ≡ ok db'
    → (raw : Bytes) × (p.encode_transaction w.transaction ≡ ok raw)
      × (any (has_request_id w.request_id) db.withdrawals ≡ false)
      × (db' ≡ record db { withdrawals = db.withdrawals ++ withdrawal_row p raw w ∷ [] })
unfolding add_withdrawal
add_withdrawal-inv p w db db' e = elim (Result-cases (p.encode_transaction w.transaction)) [
  | inl (raw, encoded) ↦ (raw, encoded, ground arith, ground arith)
  | inr (b, bad) ↦ absurd (ground arith)
]

scan_withdrawal-row :
    (p : Platform) (c : Codec p) (raw : Bytes) (w : Withdrawal)
    → IsStorable p raw w
    → scan_withdrawal p (withdrawal_row p raw w) ≡ ok (stored w)
unfolding scan_withdrawal scan_confirmation
scan_withdrawal-row p c raw w h = rw (
  length-be_bytes 32 w.basis.id,
  decode_transaction-encoded p c w.transaction raw h.encoded h.not_empty h.not_large,
  c.parse_address_string w.destination h.destination_fits,
  c.parse_exact_string w.amount h.amount_fits,
  c.parse_exact_string w.fee h.fee_fits,
  be_value-be_bytes 32 w.basis.id h.basis_fits,
)

-- A withdrawal that `AddWithdrawal` accepts, whose encoded transaction has from 1 byte to 4 MiB and whose
-- hashes and amounts lie in the ranges of their types, is what `Withdrawal` returns for its request:
-- every field is read back, with the time in whole seconds and no confirmation. The size is checked
-- only where the row is read.
pub add_withdrawal-withdrawal :
    (p : Platform) (c : Codec p) (raw : Bytes) (w : Withdrawal) (db db' : Db)
    → IsStorable p raw w
    → add_withdrawal p w db ≡ ok db'
    → withdrawal p w.request_id db' ≡ ok (some (stored w))
unfolding withdrawal
add_withdrawal-withdrawal p c raw w db db' h e =
    let (raw', encoded, fresh, grown) = add_withdrawal-inv p w db db' e in
    let same : raw' ≡ raw = cc (encoded, h.encoded) in
    rw (
      grown,
      same,
      find_first-snoc (has_request_id w.request_id) db.withdrawals (withdrawal_row p raw w) fresh
          (eq_refl w.request_id),
      scan_withdrawal-row p c raw w h,
    )

abbrev pub update_row : Bytes → ChainIndex → String → WithdrawalRow → WithdrawalRow
update_row raw basis last_error r = record r {
  transaction_blob = raw;
  basis_height = basis.height;
  basis_id = be_bytes 32 basis.id;
  last_error = last_error;
}

pub update_withdrawal-inv :
    (p : Platform) (k : String) (basis : ChainIndex) (txn : Transaction) (raw : Bytes)
    (last_error : String) (db db' : Db)
    → p.encode_transaction txn ≡ ok raw
    → update_withdrawal p k basis txn last_error db ≡ ok db'
    → db' ≡ record db {
      withdrawals = update_rows (has_request_id k) (update_row raw basis last_error) db.withdrawals;
    }
unfolding update_withdrawal
update_withdrawal-inv p k basis txn raw last_error db db' encoded e = ground arith

-- The row that `UpdateWithdrawal` writes is read back with the new values in their places.
scan_withdrawal-updated :
    (p : Platform) (c : Codec p) (basis : ChainIndex) (txn : Transaction) (raw : Bytes)
    (last_error : String) (w : Withdrawal) (r : WithdrawalRow)
    → IsStorable p raw (record w { transaction = txn; basis = basis })
    → scan_withdrawal p r ≡ ok w
    → scan_withdrawal p (update_row raw basis last_error r)
      ≡ ok (record w { transaction = txn; basis = basis; last_error = last_error })
unfolding scan_withdrawal
scan_withdrawal-updated p c basis txn raw last_error w r h e = ground (
  arith,
  length-be_bytes 32 basis.id,
  be_value-be_bytes 32 basis.id h.basis_fits,
  decode_transaction-encoded p c txn raw h.encoded h.not_empty h.not_large,
)

-- `UpdateWithdrawal` on a stored request, with a transaction whose encoding has from 1 byte to 4 MiB and
-- with hashes and amounts in the ranges of their types, replaces its transaction, basis and error and
-- leaves the other fields, the confirmation among them, and every other request as they were. The
-- size is checked only where the row is read.
pub update_withdrawal-withdrawal :
    (p : Platform) (c : Codec p) (k j : String) (basis : ChainIndex) (txn : Transaction)
    (raw : Bytes) (last_error : String) (w : Withdrawal) (db db' : Db)
    → IsStorable p raw (record w { transaction = txn; basis = basis })
    → withdrawal p j db ≡ ok (some w)
    → update_withdrawal p k basis txn last_error db ≡ ok db'
    → withdrawal p j db'
      ≡ ok (
          some (
            if str_eq k j
            then record w { transaction = txn; basis = basis; last_error = last_error }
            else w))
unfolding withdrawal
update_withdrawal-withdrawal p c k j basis txn raw last_error w db db' h found updated =
    elim (Option-cases (find_first (has_request_id j) db.withdrawals)) [
      | inl gone ↦ absurd (unfold scan_found in ground arith)
      | inr (r, hit) ↦
          let read : scan_withdrawal p r ≡ ok w = unfold scan_found in ground arith in
          rw
            (
              update_withdrawal-inv p k basis txn raw last_error db db' h.encoded updated,
              find_first-update_rows (λ s. s.request_id) (update_row raw basis last_error) j k
                  db.withdrawals (λ s. refl),
              hit,
            )
            (elim (Bool-cases (str_eq k j)) [
              | inl same ↦
                  rw (same, scan_withdrawal-updated p c basis txn raw last_error w r h read)
              | inr other ↦ rw (other, read)
            ])
    ]
