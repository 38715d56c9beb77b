-- ===== src/Daemon/Rebroadcast/Fixed.antt =====
-- The loop changes no column that says what a withdrawal or a swap action is for.
use qday_walletd.Common.{
  ℕ, String, ◌≡◌, refl, ◌∙◌, Bool, Option, none, some, List, [], ◌∷◌, map, All, Bool-cases, inl,
  inr, arith,
}
use qday_walletd.Types.{Platform, Transaction, ChainIndex, Result, ok, err, Result-cases}
use qday_walletd.Meta.Tables.{WithdrawalRow, SwapActionRow, Db}
use qday_walletd.Meta.Transactions.{update_rows}
use qday_walletd.Meta.Withdrawals.{Withdrawal, has_request_id, update_withdrawal}
use qday_walletd.Meta.Withdrawals.RoundTrip.{update_row, update_withdrawal-inv}
use qday_walletd.Meta.Withdrawals.Watching.{confirm_row, set_withdrawal_confirmation-inv}
use qday_walletd.Meta.Actions.{SwapAction, has_action_id}
use qday_walletd.Meta.Actions.Updates.{
  set_swap_action_confirmation-inv, update_swap_action-inv, confirm_action_row, update_action_row,
}
use qday_walletd.Daemon.Machine.{World, Daemon, Event, statement}
use qday_walletd.Daemon.Preserves.{
  Keeps, Keeps-bind, Keeps-then, Keeps-pure, Keeps-ask_result, Keeps-attempt, Keeps-statement,
  keeps_rules,
}
use qday_walletd.Daemon.Rebroadcast.Kept.{update_proofs-Keeps, submit_proved-Keeps}
use qday_walletd.Daemon.Rebroadcast.{
  Entry, resubmit, resubmit_cleared, follow_unconfirmed, follow_events, follow, follow_all,
  follow_withdrawals, follow_actions, withdrawal_entry, action_entry, rebroadcast_swap_actions,
  rebroadcast,
}

-- The columns that say what a withdrawal is for.
abbrev pub order_columns : WithdrawalRow → String × String × String × String × String × ℕ
order_columns r = (r.request_id, r.kind, r.destination, r.amount_atomic, r.fee_atomic, r.created_at)

-- The columns that say what a swap action is for.
abbrev pub action_columns :
    SwapActionRow → String × String × String × String × String × String × String × ℕ
action_columns r = (
  r.action_id, r.swap_id, r.kind, r.output_id, r.destination, r.amount_atomic, r.fee_atomic,
  r.created_at,
)

-- Two states of the journal with the same addresses, keys and contracts, and with withdrawals and
-- actions for the same things.
pub record SameOrders (old db : Db) : Type 0 where
  pub addresses : db.addresses ≡ old.addresses
  pub swap_keys : db.swap_keys ≡ old.swap_keys
  pub swaps : db.swaps ≡ old.swaps
  pub withdrawals : map order_columns db.withdrawals ≡ map order_columns old.withdrawals
  pub swap_actions : map action_columns db.swap_actions ≡ map action_columns old.swap_actions

map-update_rows :
    {A B : Type 0} (g : A → B) (q : A → Bool) (f : A → A) (rows : List A)
    → ((r : A) → g (f r) ≡ g r)
    → map g (update_rows q f rows) ≡ map g rows
map-update_rows g q f [] h = refl
map-update_rows g q f (r ∷ rows) h = elim (Bool-cases (q r)) [
  | inl hit ↦ rw (hit, h r, map-update_rows g q f rows h)
  | inr miss ↦ rw (miss, map-update_rows g q f rows h)
]

-- The statements of an entry leave the orders alone.
record IsGentle (old : Db) (e : Entry) : Type 0 where
  set :
      (index : Option ChainIndex) (db db' : Db)
      → SameOrders old db
      → e.set_confirmation index db ≡ ok db'
      → SameOrders old db'
  update :
      (basis : ChainIndex) (txn : Transaction) (last : String) (db db' : Db)
      → SameOrders old db
      → e.update basis txn last db ≡ ok db'
      → SameOrders old db'

module _ (p : Platform) (w : World) (tip : ChainIndex) (old : Db) where
  withdrawal_entry-IsGentle : (r : Withdrawal) → IsGentle old (withdrawal_entry p w tip r)
  withdrawal_entry-IsGentle r = record {
    set = λ index db db' h e.
        rw (set_withdrawal_confirmation-inv r.request_id index db db' e) (record {
          addresses = h.addresses;
          swap_keys = h.swap_keys;
          swaps = h.swaps;
          withdrawals =
              map-update_rows order_columns (has_request_id r.request_id) (confirm_row index)
                db.withdrawals (λ x. refl)
              ∙ h.withdrawals;
          swap_actions = h.swap_actions;
        });
    update = λ basis txn last db db' h e. elim (Result-cases (p.encode_transaction txn)) [
      | inr (b, bad) ↦ absurd (unfold update_withdrawal in ground arith)
      | inl (raw, good) ↦
          rw (update_withdrawal-inv p r.request_id basis txn raw last db db' good e) (record {
            addresses = h.addresses;
            swap_keys = h.swap_keys;
            swaps = h.swaps;
            withdrawals =
                map-update_rows order_columns (has_request_id r.request_id)
                  (update_row raw basis last) db.withdrawals (λ x. refl)
                ∙ h.withdrawals;
            swap_actions = h.swap_actions;
          })
    ];
  }

  action_entry-IsGentle : (a : SwapAction) → IsGentle old (action_entry p w tip a)
  action_entry-IsGentle a = record {
    set = λ index db db' h e.
        rw (set_swap_action_confirmation-inv a.action_id index db db' e) (record {
          addresses = h.addresses;
          swap_keys = h.swap_keys;
          swaps = h.swaps;
          withdrawals = h.withdrawals;
          swap_actions =
              map-update_rows action_columns (has_action_id a.action_id) (confirm_action_row index)
                db.swap_actions (λ x. refl)
              ∙ h.swap_actions;
        });
    update = λ basis txn last db db' h e.
        let (raw, good, grown) = update_swap_action-inv p a.action_id basis txn last db db' e in
        rw grown (record {
          addresses = h.addresses;
          swap_keys = h.swap_keys;
          swaps = h.swaps;
          withdrawals = h.withdrawals;
          swap_actions =
              map-update_rows action_columns (has_action_id a.action_id)
                (update_action_row raw basis last) db.swap_actions (λ x. refl)
              ∙ h.swap_actions;
        });
  }

module _ (p : Platform) (w : World) (tip : ChainIndex) (old : Db) where
  resubmit-Keeps : (e : Entry) → IsGentle old e → Keeps (SameOrders old) (resubmit p w tip e)
  unfolding resubmit
  resubmit-Keeps e g =
      Keeps-bind _ _ (update_proofs-Keeps w w.step_bound (e.transaction ∷ []) e.basis tip)
        (λ proved. Keeps-bind _ _ (submit_proved-Keeps p w tip proved) (λ failed.
          Keeps-bind _ _
            (Keeps-attempt _ (Keeps-statement w _ (λ db db' h done. g.update _ _ _ db db' h done)))
            (λ ignored. Keeps-pure _)))

  resubmit_cleared-Keeps :
      (e : Entry) (r : Result (Unit {0}))
      → IsGentle old e
      → Keeps (SameOrders old) (resubmit_cleared p w tip e r)
  unfolding resubmit_cleared
  resubmit_cleared-Keeps e (err x) g = Keeps-pure _
  resubmit_cleared-Keeps e (ok u) g = resubmit-Keeps e g

  set-Keeps :
      (e : Entry) (index : Option ChainIndex)
      → IsGentle old e
      → Keeps (SameOrders old) (statement w (e.set_confirmation index))
  set-Keeps e index g = Keeps-statement w _ (λ db db' h done. g.set index db db' h done)

  follow_unconfirmed-Keeps :
      (e : Entry) (o : Option ChainIndex)
      → IsGentle old e
      → Keeps (SameOrders old) (follow_unconfirmed p w tip e o)
  unfolding follow_unconfirmed
  follow_unconfirmed-Keeps e none g = resubmit-Keeps e g
  follow_unconfirmed-Keeps e (some confirmed) g =
      search (keeps_rules, resubmit_cleared-Keeps, set-Keeps, g) depth 20

  follow_events-Keeps :
      (e : Entry) (r : Result (List Event))
      → IsGentle old e
      → Keeps (SameOrders old) (follow_events p w tip e r)
  unfolding follow_events
  follow_events-Keeps e (err x) g = Keeps-pure _
  follow_events-Keeps e (ok []) g = follow_unconfirmed-Keeps e e.confirmed g
  follow_events-Keeps e (ok (event ∷ events)) g = search (keeps_rules, set-Keeps, g) depth 20

  follow_all-Keeps :
      (es : List Entry) → All (IsGentle old) es → Keeps (SameOrders old) (follow_all p w tip es)
  unfolding follow_all follow
  follow_all-Keeps [] g = Keeps-pure _
  follow_all-Keeps (e ∷ es) g =
      Keeps-then _ _
        (Keeps-bind _ _ (Keeps-attempt _ (Keeps-ask_result _)) (λ r. follow_events-Keeps e r g.0))
        (follow_all-Keeps es g.1)

  All-map :
      {A : Type 0} (f : A → Entry) (xs : List A)
      → ((x : A) → IsGentle old (f x))
      → All (IsGentle old) (map f xs)
  All-map f [] h = tt
  All-map f (x ∷ xs) h = (h x, All-map f xs h)

  follow_withdrawals-Keeps :
      (r : Result (List Withdrawal)) → Keeps (SameOrders old) (follow_withdrawals p w tip r)
  unfolding follow_withdrawals
  follow_withdrawals-Keeps (err x) = Keeps-pure _
  follow_withdrawals-Keeps (ok rs) =
      follow_all-Keeps _ (All-map _ rs (withdrawal_entry-IsGentle p w tip old))

  follow_actions-Keeps :
      (r : Result (List SwapAction)) → Keeps (SameOrders old) (follow_actions p w tip r)
  unfolding follow_actions
  follow_actions-Keeps (err x) = Keeps-pure _
  follow_actions-Keeps (ok rs) =
      follow_all-Keeps _ (All-map _ rs (action_entry-IsGentle p w tip old))

  rebroadcast_swap_actions-Keeps : Keeps (SameOrders old) (rebroadcast_swap_actions p w tip)
  unfolding rebroadcast_swap_actions
  rebroadcast_swap_actions-Keeps = search (keeps_rules, follow_actions-Keeps)

rebroadcast-Keeps : (p : Platform) (w : World) (old : Db) → Keeps (SameOrders old) (rebroadcast p w)
unfolding rebroadcast
rebroadcast-Keeps p w old =
    search (keeps_rules, follow_withdrawals-Keeps, rebroadcast_swap_actions-Keeps) depth 20

-- A round of the loop, whatever the node answers and wherever it fails, keeps every withdrawal and swap
-- action, in order, with its identifiers, kind, destination, amount, fee and time, and keeps the
-- tables of addresses, session keys and contracts as they are.
pub rebroadcast-SameOrders :
    (p : Platform) (w : World) (s : Daemon) → SameOrders s.db (rebroadcast p w s).1.db
rebroadcast-SameOrders p w s = (rebroadcast-Keeps p w s.db).run s (record {
  addresses = refl;
  swap_keys = refl;
  swaps = refl;
  withdrawals = refl;
  swap_actions = refl;
})
