-- ===== src/Meta/Writes/Kept.antt =====
-- internal/meta/store.go and swap.go: what stays in the tables, whatever statements change them.
use qday_walletd.Common.{
  String, ◌≡◌, refl, Bool, true, some, List, [], ◌∷◌, ◌++◌, any, any-append, arith, Bool-cases, inl,
  inr, Bytes,
}
use qday_walletd.Types.{Platform, Transaction, ChainIndex, Result-cases, ok}
use qday_walletd.Meta.Tables.{Db}
use qday_walletd.Meta.Transactions.{update_rows}
use qday_walletd.Meta.Addresses.{Address, address_by_reference}
use qday_walletd.Meta.Addresses.RoundTrip.{add_address-inv, add_address-keeps}
use qday_walletd.Meta.Withdrawals.{has_request_id, update_withdrawal, withdrawal_row}
use qday_walletd.Meta.Withdrawals.RoundTrip.{add_withdrawal-inv, update_row, update_withdrawal-inv}
use qday_walletd.Meta.Withdrawals.Watching.{confirm_row, set_withdrawal_confirmation-inv}
use qday_walletd.Meta.Withdrawals.Bound.{IsBound}
use qday_walletd.Meta.Swaps.{SwapKey, add_swap_key, swap_key_row}
use qday_walletd.Meta.Swaps.Contracts.{add_swap-inv}
use qday_walletd.Meta.Actions.{has_action_id, is_action_of, swap_action_row}
use qday_walletd.Meta.Actions.RoundTrip.{add_swap_action-inv}
use qday_walletd.Meta.Actions.Updates.{
  set_swap_action_confirmation-inv, update_swap_action-inv, confirm_action_row, update_action_row,
}
use qday_walletd.Meta.Writes.{
  Write, Writes, address_added, withdrawal_added, withdrawal_updated, withdrawal_confirmed,
  key_added, swap_added, action_added, action_updated, action_confirmed, none_made, then_write,
}

any-update_rows :
    {A : Type 0} (q k : A → Bool) (f : A → A) (rows : List A)
    → ((r : A) → q (f r) ≡ q r)
    → any q (update_rows k f rows) ≡ any q rows
any-update_rows q k f [] h = refl
any-update_rows q k f (r ∷ rows) h = elim (Bool-cases (k r)) [
  | inl hit ↦ rw (hit, h r, any-update_rows q k f rows h)
  | inr miss ↦ rw (miss, any-update_rows q k f rows h)
]

add_swap_key-inv :
    (p : Platform) (k : SwapKey) (db db' : Db)
    → add_swap_key p k db ≡ ok db'
    → db' ≡ record db { swap_keys = db.swap_keys ++ swap_key_row p k ∷ [] }
unfolding add_swap_key
add_swap_key-inv p k db db' e = ground arith

any-grown :
    {A : Type 0} (q : A → Bool) (rows more : List A)
    → any q rows ≡ true
    → any q (rows ++ more) ≡ true
any-grown q rows more h = rw (any-append q rows more, h)

update_withdrawal-grown :
    (p : Platform) (k : String) (basis : ChainIndex) (txn : Transaction) (last : String)
    (db db' : Db)
    → update_withdrawal p k basis txn last db ≡ ok db'
    → (raw : Bytes) × (db' ≡ record db {
      withdrawals = update_rows (has_request_id k) (update_row raw basis last) db.withdrawals;
    })
update_withdrawal-grown p k basis txn last db db' e =
    elim (Result-cases (p.encode_transaction txn)) [
      | inr (b, bad) ↦ absurd (unfold update_withdrawal in ground arith)
      | inl (raw, good) ↦ (raw, update_withdrawal-inv p k basis txn raw last db db' good e)
    ]

module _ (p : Platform) where
  -- A request that has a row keeps it.
  Write-IsBound : (j : String) {db db' : Db} → Write p db db' → IsBound j db → IsBound j db'
  Write-IsBound j {db} {db'} (address_added a e) h = rw (add_address-inv p a db db' e).1 h
  Write-IsBound j {db} {db'} (withdrawal_added r e) h =
      let (raw, encoded, fresh, grown) = add_withdrawal-inv p r db db' e in
      rw grown (any-grown (has_request_id j) db.withdrawals (withdrawal_row p raw r ∷ []) h)
  Write-IsBound j {db} {db'} (withdrawal_updated k basis txn last e) h =
      let (raw, grown) = update_withdrawal-grown p k basis txn last db db' e in
      rw
        (
          grown,
          any-update_rows (has_request_id j) (has_request_id k) (update_row raw basis last)
              db.withdrawals (λ r. refl),
        )
        h
  Write-IsBound j {db} {db'} (withdrawal_confirmed k index e) h =
      rw
        (
          set_withdrawal_confirmation-inv k index db db' e,
          any-update_rows (has_request_id j) (has_request_id k) (confirm_row index) db.withdrawals
              (λ r. refl),
        )
        h
  Write-IsBound j {db} {db'} (key_added k e) h = rw (add_swap_key-inv p k db db' e) h
  Write-IsBound j {db} {db'} (swap_added s e) h = rw (add_swap-inv p s db db' e).1 h
  Write-IsBound j {db} {db'} (action_added a e) h =
      let (raw, encoded, fresh, grown) = add_swap_action-inv p a db db' e in rw grown h
  Write-IsBound j {db} {db'} (action_updated k basis txn last e) h =
      let (raw, encoded, grown) = update_swap_action-inv p k basis txn last db db' e in rw grown h
  Write-IsBound j {db} {db'} (action_confirmed k index e) h =
      rw (set_swap_action_confirmation-inv k index db db' e) h

  pub Writes-IsBound : (j : String) {db db' : Db} → Writes p db db' → IsBound j db → IsBound j db'
  Writes-IsBound j none_made h = h
  Writes-IsBound j (then_write ws w) h = Write-IsBound j w (Writes-IsBound j ws h)

  -- A reference that has an address keeps it.
  Write-address_by_reference :
      (reference : String) (a : Address) {db db' : Db}
      → Write p db db'
      → address_by_reference p reference db ≡ ok (some a)
      → address_by_reference p reference db' ≡ ok (some a)
  unfolding address_by_reference
  Write-address_by_reference reference a {db} {db'} (address_added b e) h =
      (add_address-keeps p b a db db' e).2 reference h
  Write-address_by_reference reference a {db} {db'} (withdrawal_added r e) h =
      let (raw, encoded, fresh, grown) = add_withdrawal-inv p r db db' e in rw grown h
  Write-address_by_reference reference a {db} {db'} (withdrawal_updated k basis txn last e) h =
      let (raw, grown) = update_withdrawal-grown p k basis txn last db db' e in rw grown h
  Write-address_by_reference reference a {db} {db'} (withdrawal_confirmed k index e) h =
      rw (set_withdrawal_confirmation-inv k index db db' e) h
  Write-address_by_reference reference a {db} {db'} (key_added k e) h =
      rw (add_swap_key-inv p k db db' e) h
  Write-address_by_reference reference a {db} {db'} (swap_added s e) h =
      rw (add_swap-inv p s db db' e).1 h
  Write-address_by_reference reference a {db} {db'} (action_added b e) h =
      let (raw, encoded, fresh, grown) = add_swap_action-inv p b db db' e in rw grown h
  Write-address_by_reference reference a {db} {db'} (action_updated k basis txn last e) h =
      let (raw, encoded, grown) = update_swap_action-inv p k basis txn last db db' e in rw grown h
  Write-address_by_reference reference a {db} {db'} (action_confirmed k index e) h =
      rw (set_swap_action_confirmation-inv k index db db' e) h

  pub Writes-address_by_reference :
      (reference : String) (a : Address) {db db' : Db}
      → Writes p db db'
      → address_by_reference p reference db ≡ ok (some a)
      → address_by_reference p reference db' ≡ ok (some a)
  Writes-address_by_reference reference a none_made h = h
  Writes-address_by_reference reference a (then_write ws w) h =
      Write-address_by_reference reference a w (Writes-address_by_reference reference a ws h)

  -- The table has an action of a kind for an output of a swap.
  abbrev pub HasActionOf : String → String → String → Db → Type 0
  HasActionOf swap_id kind output_id db =
      any (is_action_of swap_id kind output_id) db.swap_actions ≡ true

  Write-HasActionOf :
      (i k o : String) {db db' : Db} → Write p db db' → HasActionOf i k o db → HasActionOf i k o db'
  Write-HasActionOf i k o {db} {db'} (address_added a e) h = rw (add_address-inv p a db db' e).1 h
  Write-HasActionOf i k o {db} {db'} (withdrawal_added r e) h =
      let (raw, encoded, fresh, grown) = add_withdrawal-inv p r db db' e in rw grown h
  Write-HasActionOf i k o {db} {db'} (withdrawal_updated j basis txn last e) h =
      let (raw, grown) = update_withdrawal-grown p j basis txn last db db' e in rw grown h
  Write-HasActionOf i k o {db} {db'} (withdrawal_confirmed j index e) h =
      rw (set_withdrawal_confirmation-inv j index db db' e) h
  Write-HasActionOf i k o {db} {db'} (key_added j e) h = rw (add_swap_key-inv p j db db' e) h
  Write-HasActionOf i k o {db} {db'} (swap_added s e) h = rw (add_swap-inv p s db db' e).1 h
  Write-HasActionOf i k o {db} {db'} (action_added a e) h =
      let (raw, encoded, fresh, grown) = add_swap_action-inv p a db db' e in
      rw grown (any-grown (is_action_of i k o) db.swap_actions (swap_action_row p raw a ∷ []) h)
  Write-HasActionOf i k o {db} {db'} (action_updated j basis txn last e) h =
      let (raw, encoded, grown) = update_swap_action-inv p j basis txn last db db' e in
      rw
        (
          grown,
          any-update_rows (is_action_of i k o) (has_action_id j) (update_action_row raw basis last)
              db.swap_actions (λ r. refl),
        )
        h
  Write-HasActionOf i k o {db} {db'} (action_confirmed j index e) h =
      rw
        (
          set_swap_action_confirmation-inv j index db db' e,
          any-update_rows (is_action_of i k o) (has_action_id j) (confirm_action_row index)
              db.swap_actions (λ r. refl),
        )
        h

  pub Writes-HasActionOf :
      (i k o : String) {db db' : Db}
      → Writes p db db'
      → HasActionOf i k o db
      → HasActionOf i k o db'
  Writes-HasActionOf i k o none_made h = h
  Writes-HasActionOf i k o (then_write ws w) h =
      Write-HasActionOf i k o w (Writes-HasActionOf i k o ws h)
