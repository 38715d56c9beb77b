-- ===== src/Meta/Withdrawals/Watching.antt =====
-- Confirmations of journaled withdrawals, and which of them are still watched.
use qday_walletd.Common.{
  ℕ, String, ◌^◌, ◌+◌, ◌<◌, ◌≤◌, ◌≡◌, refl, Bool-cases, true, Option, Option-cases, none, some,
  List, arith, inl, inr, find_first, keep, str_eq, if◌then◌else◌, Elem, Elem-keep, Elem-keep_inv,
  Elem-find_first,
}
use qday_walletd.Types.{
  Platform, ChainIndex, ok, Result-cases, map_result, Elem-map_result, Elem-map_result_inv,
}
use qday_walletd.Meta.Tables.{WithdrawalRow, Db, order_by, Elem-order_by}
use qday_walletd.Meta.Transactions.{
  update_rows, find_first-update_rows, scan_confirmation, scan_confirmation-stored,
  scan_confirmation-height, confirmed_height, confirmed_id, is_candidate, cutoff_height,
}
use qday_walletd.Meta.Withdrawals.{
  Withdrawal, has_request_id, oldest_first, scan_withdrawal, scan_found, withdrawal,
  set_withdrawal_confirmation, rebroadcast_candidates,
}

abbrev pub confirm_row : Option ChainIndex → WithdrawalRow → WithdrawalRow
confirm_row index r = record r {
  confirmed_height = confirmed_height index;
  confirmed_block_id = confirmed_id index;
}

pub set_withdrawal_confirmation-inv :
    (k : String) (index : Option ChainIndex) (db db' : Db)
    → set_withdrawal_confirmation k index db ≡ ok db'
    → db' ≡ record db {
      withdrawals = update_rows (has_request_id k) (confirm_row index) db.withdrawals;
    }
unfolding set_withdrawal_confirmation
set_withdrawal_confirmation-inv k none db db' e = ground arith
set_withdrawal_confirmation-inv k (some index) db db' e = ground arith

abbrev FitsIndex : Option ChainIndex → Type 0
FitsIndex none = Unit
FitsIndex (some index) = index.id < 2 ^ 256

confirm_row-read :
    (message : String) (index : Option ChainIndex)
    → FitsIndex index
    → scan_confirmation message (confirmed_height index) (confirmed_id index) ≡ ok index
confirm_row-read message none h = unfold scan_confirmation in refl
confirm_row-read message (some index) h = scan_confirmation-stored message index h

scan_withdrawal-confirmed :
    (p : Platform) (index : Option ChainIndex) (w : Withdrawal) (r : WithdrawalRow)
    → FitsIndex index
    → scan_withdrawal p r ≡ ok w
    → scan_withdrawal p (confirm_row index r) ≡ ok (record w { confirmed = index })
unfolding scan_withdrawal
scan_withdrawal-confirmed p index w r h e =
    ground (arith, confirm_row-read "invalid stored withdrawal confirmation" index h)

-- The row behind an answer of `Withdrawal`.
pub withdrawal-inv :
    (p : Platform) (request_id : String) (db : Db) (w : Withdrawal)
    → withdrawal p request_id db ≡ ok (some w)
    → (r : WithdrawalRow) × (find_first (has_request_id request_id) db.withdrawals ≡ some r)
      × (scan_withdrawal p r ≡ ok w)
unfolding withdrawal scan_found
withdrawal-inv p request_id db w found =
    elim (Option-cases (find_first (has_request_id request_id) db.withdrawals)) [
      | inl gone ↦ absurd (ground arith)
      | inr (r, hit) ↦ (r, hit, ground arith)
    ]

-- `SetWithdrawalConfirmation` sets or clears the confirmation of its request and changes nothing else of
-- that record nor any other record.
pub set_withdrawal_confirmation-withdrawal :
    (p : Platform) (k j : String) (index : Option ChainIndex) (w : Withdrawal) (db db' : Db)
    → FitsIndex index
    → withdrawal p j db ≡ ok (some w)
    → set_withdrawal_confirmation k index db ≡ ok db'
    → withdrawal p j db' ≡ ok (some (if str_eq k j then record w { confirmed = index } else w))
unfolding withdrawal
set_withdrawal_confirmation-withdrawal p k j index w db db' h found done =
    let (r, hit, read) = withdrawal-inv p j db w found in
    rw
      (
        set_withdrawal_confirmation-inv k index db db' done,
        find_first-update_rows (λ s. s.request_id) (confirm_row index) j k db.withdrawals
            (λ s. refl),
        hit,
      )
      (elim (Bool-cases (str_eq k j)) [
        | inl same ↦ rw (same, scan_withdrawal-confirmed p index w r h read)
        | inr other ↦ rw (other, read)
      ])

-- Not confirmed, or confirmed at most `window` blocks below the tip.
abbrev pub IsWatched : ℕ → ℕ → Option ChainIndex → Type 0
IsWatched tip window none = Unit
IsWatched tip window (some index) = tip ≤ index.height + window

is_candidate-IsWatched :
    (tip window : ℕ) (confirmed : Option ChainIndex)
    → is_candidate (cutoff_height tip window) (confirmed_height confirmed) ≡ true
    → IsWatched tip window confirmed
is_candidate-IsWatched tip window none e = tt
is_candidate-IsWatched tip window (some index) e = ground arith

IsWatched-is_candidate :
    (tip window : ℕ) (confirmed : Option ChainIndex)
    → IsWatched tip window confirmed
    → is_candidate (cutoff_height tip window) (confirmed_height confirmed) ≡ true
IsWatched-is_candidate tip window none h = refl
IsWatched-is_candidate tip window (some index) h = ground arith

scan_withdrawal-height :
    (p : Platform) (w : Withdrawal) (r : WithdrawalRow)
    → scan_withdrawal p r ≡ ok w
    → confirmed_height w.confirmed ≡ r.confirmed_height
unfolding scan_withdrawal
scan_withdrawal-height p w r e =
    elim (Result-cases (
      scan_confirmation "invalid stored withdrawal confirmation" r.confirmed_height
        r.confirmed_block_id)) [
          | inl (confirmed, read) ↦ ground (
            arith,
            scan_confirmation-height "invalid stored withdrawal confirmation" r.confirmed_height
                r.confirmed_block_id confirmed read,
          )
          | inr (b, bad) ↦ absurd (ground arith)
        ]

abbrev watched_rows : ℕ → ℕ → Db → List WithdrawalRow
watched_rows tip window db =
    keep (λ r. is_candidate (cutoff_height tip window) r.confirmed_height) db.withdrawals

candidates-rows :
    (p : Platform) (tip window : ℕ) (db : Db) {ws : List Withdrawal}
    → rebroadcast_candidates p tip window db ≡ ok ws
    → map_result (scan_withdrawal p) (order_by oldest_first (watched_rows tip window db)) ≡ ok ws
unfolding rebroadcast_candidates
candidates-rows p tip window db e = ground arith

-- The candidates for a rebroadcast are watched, and every watched withdrawal of the journal is one of
-- them: nothing that a reorganization of up to `window` blocks could undo is dropped.
pub rebroadcast_candidates-exact :
    (p : Platform) (tip window : ℕ) (db : Db) {ws : List Withdrawal}
    → rebroadcast_candidates p tip window db ≡ ok ws
    → ((w : Withdrawal) → Elem w ws → IsWatched tip window w.confirmed)
      × ((request_id : String) (w : Withdrawal)
          → withdrawal p request_id db ≡ ok (some w)
          → IsWatched tip window w.confirmed
          → Elem w ws)
rebroadcast_candidates-exact p tip window db {ws} e = (
  λ w m.
      let (r, there, read) =
        Elem-map_result_inv (scan_withdrawal p) (order_by oldest_first (watched_rows tip window db))
          w (candidates-rows p tip window db e) m in
      let kept =
        Elem-keep_inv (λ s. is_candidate (cutoff_height tip window) s.confirmed_height) r
          db.withdrawals ((Elem-order_by oldest_first r (watched_rows tip window db)).0 there) in
      is_candidate-IsWatched tip window w.confirmed (rw (scan_withdrawal-height p w r read) kept.1),
  λ request_id w found watched.
      let (r, hit, read) = withdrawal-inv p request_id db w found in
      let kept =
        Elem-keep (λ s. is_candidate (cutoff_height tip window) s.confirmed_height) r db.withdrawals
          (Elem-find_first (has_request_id request_id) db.withdrawals r hit)
          (rw (← scan_withdrawal-height p w r read)
            (IsWatched-is_candidate tip window w.confirmed watched)) in
      Elem-map_result (scan_withdrawal p) (order_by oldest_first (watched_rows tip window db)) r w
        (candidates-rows p tip window db e)
        ((Elem-order_by oldest_first r (watched_rows tip window db)).1 kept) read,
)
