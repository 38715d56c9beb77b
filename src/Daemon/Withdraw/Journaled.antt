-- ===== src/Daemon/Withdraw/Journaled.antt =====
-- internal/daemon/service.go, `CreateWithdrawal`: the order of recording and submitting.
use qday_walletd.Daemon.Journaled.{
  HasWithdrawal, IsOnDisk, AllJournaled, IsJournaled, AllSubmitted, timeless_of, about_of,
  inserted_withdrawal, submitted_settles,
}
use qday_walletd.Common.{
  ℕ, Option, none, some, List, [], ◌∷◌, ◌≡◌, ◌⊎◌, inl, inr, All, Elem, All-of_Elem,
}
use qday_walletd.Types.{Platform, Transaction, ChainIndex, Currency, Error, Result, ok, err}
use qday_walletd.Meta.Tables.{Db}
use qday_walletd.Meta.Withdrawals.{Withdrawal, add_withdrawal}
use qday_walletd.Daemon.Machine.{World, Daemon, Effect, watch, submit, announce, wake}
use qday_walletd.Daemon.Steps.{Yields-statement}
use qday_walletd.Daemon.Invariant.{
  Preserves, Settles, Settles-then, Settles-go, Settles-after, Settles-after_then,
  Preserves-require, Preserves-ask_result, Preserves-lift, Preserves-query, Settles-attempt,
  Settles-preserves, Preserves-then, Preserves-pure, Preserves-emit, Preserves-ask,
  Preserves-statement, preserves_rules,
}
use qday_walletd.Daemon.Chain.Kept.{network_synced-Preserves, broadcast-Preserves}
use qday_walletd.Daemon.Wallet.Preserved.{master_seed-Preserves}
use qday_walletd.Daemon.Transfer.Preserved.{build_custody_transfer-Preserves}
use qday_walletd.Daemon.Withdraw.{
  WithdrawalRequest, note_error, broadcast_added, submit_withdrawal, withdraw, create_withdrawal,
}
use qday_walletd.Daemon.Withdraw.Reading.{withdrawal_view-Preserves}

module _ (p : Platform) (w : World) (OnDisk : Db → ChainIndex → List Transaction → Type 0) where
  note_error-Preserves :
      (r : Withdrawal) (e : Option Error) → Preserves (AllSubmitted OnDisk) (note_error p w r e)
  unfolding note_error
  note_error-Preserves r none = Preserves-pure _
  note_error-Preserves r (some e) =
      let i = timeless_of OnDisk in let j = about_of OnDisk in search (preserves_rules, i, j)

  pub broadcast_added-Preserves :
      (r : Withdrawal) (added : Result (Unit {0}))
      → Preserves (AllSubmitted OnDisk) (broadcast_added p w r added)
  unfolding broadcast_added
  broadcast_added-Preserves r (err e) = Preserves-pure _
  broadcast_added-Preserves r (ok u) =
      let i = timeless_of OnDisk in
      let j = about_of OnDisk in search (preserves_rules, broadcast-Preserves, i, j)

  submit_settles :
      (r : Withdrawal) (s : Daemon)
      → AllSubmitted OnDisk s
      → OnDisk s.db r.basis (r.transaction ∷ [])
      → Settles (submit_withdrawal p w r) s (AllSubmitted OnDisk)
  unfolding submit_withdrawal
  submit_settles r s h on_disk =
      Settles-go
        (Settles-attempt (submitted_settles OnDisk w r.basis (r.transaction ∷ []) s h on_disk))
        (λ added. search (preserves_rules, broadcast_added-Preserves, note_error-Preserves))

  module _
      (recorded : (r : Withdrawal) (db db' : Db)
        → add_withdrawal p r db ≡ ok db'
        → OnDisk db' r.basis (r.transaction ∷ [])) where
    withdraw_settles :
        (request : WithdrawalRequest) (destination : ℕ) (value fee : Currency)
        (existing : Option Withdrawal) (s : Daemon)
        → AllSubmitted OnDisk s
        → Settles (withdraw p w request destination value fee existing) s (AllSubmitted OnDisk)
    unfolding withdraw
    withdraw_settles request destination value fee (some r) s h =
        let i = timeless_of OnDisk in
        Settles-preserves (search (preserves_rules, withdrawal_view-Preserves, i)) h
    withdraw_settles request destination value fee none s h =
        let i = timeless_of OnDisk in
        let j = about_of OnDisk in
        Settles-after master_seed-Preserves h λ master t0 h0.
          Settles-after (network_synced-Preserves w i) h0 λ synced t1 h1.
            Settles-after_then (Preserves-require _ _) h1 λ t2 h2.
              Settles-after (Preserves-ask i _) h2 λ cs t3 h3.
                Settles-after (Preserves-ask_result i _) h3 λ scan t4 h4.
                  Settles-after_then (Preserves-require _ _) h4 λ t5 h5.
                    Settles-after_then (Preserves-require _ _) h5 λ t6 h6.
                      Settles-after
                        (build_custody_transfer-Preserves p w cs i j master destination value fee)
                        h6
                        λ txn t7 h7. Settles-after (Preserves-ask i _) h7 λ now t8 h8.
                          Settles-then (Settles-preserves (Preserves-statement i j w _) h8) (
                            Yields-statement _ _ λ db inserted.
                              Settles-go (submit_settles _ _ h8 (recorded _ _ db inserted)) (λ r.
                                Preserves-then _ _ (Preserves-emit wake (λ t held. (tt, held)))
                                  (search (preserves_rules, withdrawal_view-Preserves, i))))

    pub create_withdrawal-AllSubmitted :
        (request : WithdrawalRequest) (s : Daemon)
        → AllSubmitted OnDisk s
        → AllSubmitted OnDisk (create_withdrawal p w request s).1
    unfolding create_withdrawal
    create_withdrawal-AllSubmitted request s h =
        let i = timeless_of OnDisk in
        (Settles-after_then (Preserves-require _ _) h λ t0 h0.
          Settles-after (Preserves-lift _) h0 λ destination t1 h1.
            Settles-after (Preserves-lift _) h1 λ value t2 h2.
              Settles-after (Preserves-lift _) h2 λ fee t3 h3.
                Settles-after (Preserves-query i _ _) h3 λ existing t4 h4.
                  withdraw_settles request destination value fee existing t4 h4).final

-- What was submitted before is among what was submitted before.
submitted_before :
    (OnDisk : Db → ChainIndex → List Transaction → Type 0) (effects : List Effect)
    → All
        (IsJournaled (λ db basis txns. OnDisk db basis txns ⊎ Elem (submit db basis txns) effects))
        effects
submitted_before OnDisk effects = All-of_Elem effects λ e m. before e m
  where
    before :
        (e : Effect)
        → Elem e effects
        → IsJournaled
            (λ db basis txns. OnDisk db basis txns ⊎ Elem (submit db basis txns) effects)
            e
    before (submit db basis txns) m = inr m
    before (watch partition address description) m = tt
    before (announce basis txns) m = tt
    before wake m = tt

-- Whatever `CreateWithdrawal` submits to the pool was in the table of withdrawals on disk when it was
-- submitted, as the only transaction of a withdrawal and with its basis, however the call ends: what is
-- submitted afterwards and was not before the call is of that kind.
pub create_withdrawal-HasWithdrawal :
    (p : Platform) (w : World) (request : WithdrawalRequest) (s : Daemon)
    → AllSubmitted
        (λ db basis txns. HasWithdrawal p db basis txns ⊎ Elem (submit db basis txns) s.trace)
        (create_withdrawal p w request s).1
create_withdrawal-HasWithdrawal p w request s =
    create_withdrawal-AllSubmitted p w
      (λ db basis txns. HasWithdrawal p db basis txns ⊎ Elem (submit db basis txns) s.trace)
      (λ r db db' e. inl (inserted_withdrawal p r db db' e)) request s
      (submitted_before (HasWithdrawal p) s.trace)

pub create_withdrawal-AllJournaled :
    (p : Platform) (w : World) (request : WithdrawalRequest) (s : Daemon)
    → AllJournaled p s
    → AllJournaled p (create_withdrawal p w request s).1
create_withdrawal-AllJournaled p w request s h =
    create_withdrawal-AllSubmitted p w (IsOnDisk p)
      (λ r db db' e. inl (inserted_withdrawal p r db db' e)) request s h
