-- ===== src/Meta/Withdrawals/Bound.antt =====
-- A request that has a row keeps it.
use qday_walletd.Common.{
  String, ◌≡◌, refl, Bool, true, Option, none, some, List, [], ◌∷◌, any, any-append, arith,
  find_first, find_first-none, Option-cases, inl, inr, eq_refl, Bool-cases,
}
use qday_walletd.Types.{Platform, Transaction, ChainIndex, ok, Result-cases}
use qday_walletd.Meta.Tables.{Db, WithdrawalRow}
use qday_walletd.Meta.Transactions.{update_rows}
use qday_walletd.Meta.Withdrawals.{
  Withdrawal, has_request_id, withdrawal_row, scan_found, withdrawal, add_withdrawal,
  update_withdrawal,
}
use qday_walletd.Meta.Withdrawals.Watching.{withdrawal-inv}
use qday_walletd.Meta.Withdrawals.RoundTrip.{add_withdrawal-inv, update_row, update_withdrawal-inv}

-- The table has a row for the request.
abbrev pub IsBound : String → Db → Type 0
IsBound request_id db = any (has_request_id request_id) db.withdrawals ≡ true

-- A bound request is never reported as absent.
pub withdrawal-IsBound :
    (p : Platform) (request_id : String) (db : Db) (existing : Option Withdrawal)
    → IsBound request_id db
    → withdrawal p request_id db ≡ ok existing
    → (r : Withdrawal) × (existing ≡ some r)
unfolding withdrawal scan_found
withdrawal-IsBound p request_id db (some r) bound e = (r, refl)
withdrawal-IsBound p request_id db none bound e =
    elim (Option-cases (find_first (has_request_id request_id) db.withdrawals)) [
      | inl gone ↦ absurd (
          let missing = find_first-none (has_request_id request_id) db.withdrawals gone in
          ground arith)
      | inr (row, hit) ↦ absurd (ground arith)
    ]

-- The row of an accepted INSERT is there.
pub add_withdrawal-IsBound :
    (p : Platform) (r : Withdrawal) (db db' : Db)
    → add_withdrawal p r db ≡ ok db'
    → IsBound r.request_id db'
add_withdrawal-IsBound p r db db' e =
    let (raw, encoded, fresh, grown) = add_withdrawal-inv p r db db' e in
    let same = eq_refl r.request_id in
    rw
      (
        grown,
        any-append (has_request_id r.request_id) db.withdrawals (withdrawal_row p raw r ∷ []),
        fresh,
      )
      (ground arith)

any-update_rows :
    (k j : String) (f : WithdrawalRow → WithdrawalRow) (rows : List WithdrawalRow)
    → ((r : WithdrawalRow) → (f r).request_id ≡ r.request_id)
    → any (has_request_id j) (update_rows (has_request_id k) f rows) ≡ any (has_request_id j) rows
any-update_rows k j f [] h = refl
any-update_rows k j f (r ∷ rows) h = elim (Bool-cases (has_request_id k r)) [
  | inl hit ↦ rw (hit, h r, any-update_rows k j f rows h)
  | inr miss ↦ rw (miss, any-update_rows k j f rows h)
]

-- An UPDATE changes no request identifier.
pub update_withdrawal-IsBound :
    (p : Platform) (k j : String) (basis : ChainIndex) (txn : Transaction) (last_error : String)
    (db db' : Db)
    → IsBound j db
    → update_withdrawal p k basis txn last_error db ≡ ok db'
    → IsBound j db'
unfolding update_withdrawal
update_withdrawal-IsBound p k j basis txn last_error db db' h e =
    elim (Result-cases (p.encode_transaction txn)) [
      | inr (b, bad) ↦ absurd (ground arith)
      | inl (raw, good) ↦
          rw
            (
              update_withdrawal-inv p k basis txn raw last_error db db' good e,
              any-update_rows k j (update_row raw basis last_error) db.withdrawals (λ r. refl),
            )
            h
    ]

-- What `Withdrawal` returns has a row.
pub withdrawal-found-IsBound :
    (p : Platform) (request_id : String) (db : Db) (r : Withdrawal)
    → withdrawal p request_id db ≡ ok (some r)
    → IsBound request_id db
withdrawal-found-IsBound p request_id db r e =
    let (row, hit, read) = withdrawal-inv p request_id db r e in
    any-find_first (has_request_id request_id) db.withdrawals row hit
  where
    any-find_first :
        (q : WithdrawalRow → Bool) (rows : List WithdrawalRow) (row : WithdrawalRow)
        → find_first q rows ≡ some row
        → any q rows ≡ true
    any-find_first q [] row h = absurd (ground arith)
    any-find_first q (x ∷ rows) row h = ground (arith, any-find_first q rows row)
