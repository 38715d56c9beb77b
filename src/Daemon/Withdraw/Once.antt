-- ===== src/Daemon/Withdraw/Once.antt =====
-- internal/daemon/service.go, `CreateWithdrawal`: a request that is repeated.
use qday_walletd.Common.{ℕ, String, ◌≡◌, refl, Bool, false, Option, none, some, [], ◌∷◌}
use qday_walletd.Types.{Platform, Currency, Error, Result, ok, err}
use qday_walletd.Meta.Tables.{Db}
use qday_walletd.Meta.Withdrawals.{Withdrawal, withdrawal}
use qday_walletd.Meta.Withdrawals.Bound.{
  IsBound, withdrawal-found-IsBound, add_withdrawal-IsBound, update_withdrawal-IsBound,
}
use qday_walletd.Meta.Writes.{Writes}
use qday_walletd.Meta.Writes.Kept.{Writes-IsBound}
use qday_walletd.Daemon.Machine.{World, Daemon}
use qday_walletd.Daemon.Preserves.{
  Keeps, Keeps-bind, Keeps-pure, Keeps-attempt, Keeps-statement, keeps_rules,
}
use qday_walletd.Daemon.Ends.{Yields-keeps}
use qday_walletd.Daemon.Steps.{
  Yields, Yields-bind, Yields-then, Yields-map, Yields-any, Yields-pure, Yields-lift, Yields-ask,
  Yields-ask_result, Yields-query, Yields-require, Yields-statement, Yields-emit,
}
use qday_walletd.Daemon.Invariant.{Preserves}
use qday_walletd.Daemon.Withdraw.Reading.{withdrawal_view-Preserves}
use qday_walletd.Daemon.Chain.Kept.{broadcast-Keeps}
use qday_walletd.Daemon.Withdraw.{
  WithdrawalRequest, WithdrawalView, withdrawal_view, note_error, broadcast_added,
  submit_withdrawal, withdraw, create_withdrawal,
}
use qday_walletd.Daemon.Withdraw.Known.{SameJournal, create_withdrawal-known}

module _ (p : Platform) (w : World) (request_id : String) where
  abbrev Stays : Db → Type 0
  Stays = IsBound request_id

  note_error-Keeps : (r : Withdrawal) (e : Option Error) → Keeps Stays (note_error p w r e)
  unfolding note_error
  note_error-Keeps r none = Keeps-pure _
  note_error-Keeps r (some e) =
      Keeps-bind _ _
        (Keeps-attempt _ (
          Keeps-statement w _
            (λ db db' h done. update_withdrawal-IsBound p _ request_id _ _ _ db db' h done)))
        (λ ignored. Keeps-pure _)

  broadcast_added-Keeps :
      (r : Withdrawal) (added : Result (Unit {0})) → Keeps Stays (broadcast_added p w r added)
  unfolding broadcast_added
  broadcast_added-Keeps r (err e) = Keeps-pure _
  broadcast_added-Keeps r (ok u) =
      Keeps-bind _ _ (Keeps-attempt _ (broadcast-Keeps w r.basis (r.transaction ∷ [])))
        (λ sent. Keeps-pure _)

  submit_withdrawal-Keeps : (r : Withdrawal) → Keeps Stays (submit_withdrawal p w r)
  unfolding submit_withdrawal
  submit_withdrawal-Keeps r = search (keeps_rules, broadcast_added-Keeps, note_error-Keeps)

module _ (p : Platform) (w : World) (request : WithdrawalRequest) where
  withdrawal_view-Keeps :
      (r : Withdrawal) → Keeps (IsBound request.request_id) (withdrawal_view p w r)
  withdrawal_view-Keeps r = record { run = λ s h. rw (same_db r s) h }
    where
      same_db : (r : Withdrawal) (s : Daemon) → (withdrawal_view p w r s).1.db ≡ s.db
      same_db r s =
          let reads : Preserves (λ t. t.db ≡ s.db) (withdrawal_view p w r) =
            withdrawal_view-Preserves p w (record { at_tick = λ t h. h }) r in
          reads.run s refl

  Yields-withdraw :
      (destination : ℕ) (value fee : Currency) (existing : Option Withdrawal) (s : Daemon)
      → withdrawal p request.request_id s.db ≡ ok existing
      → Yields
          (withdraw p w request destination value fee existing)
          s
          (λ _ t. IsBound request.request_id t.db)
  unfolding withdraw
  Yields-withdraw destination value fee (some r) s found = Yields-then (
      Yields-require _ _ λ same. Yields-bind (
        Yields-map
          (Yields-keeps (withdrawal_view-Keeps r)
            (withdrawal-found-IsBound p request.request_id s.db r found))
          λ view t bound. Yields-pure _ bound))
  Yields-withdraw destination value fee none s found = Yields-bind (
      Yields-map (Yields-any _) λ master t u. Yields-bind (
        Yields-map (Yields-any _) λ synced t u. Yields-then (
          Yields-require _ _ λ in_touch. Yields-bind (
            Yields-ask _ (
              Yields-bind (
                Yields-ask_result _ λ scan scanned. Yields-then (
                  Yields-require _ _ λ current. Yields-then (
                    Yields-require _ _ λ expected. Yields-bind (
                      Yields-map (Yields-any _) λ txn t u. Yields-bind (
                        Yields-ask _ (
                          Yields-then (
                            Yields-statement _ _ λ db inserted. Yields-bind (
                              Yields-map
                                (Yields-keeps (submit_withdrawal-Keeps p w request.request_id _)
                                  (add_withdrawal-IsBound p _ _ db inserted))
                                λ r t bound. Yields-then (
                                  Yields-emit _ (
                                    Yields-bind (
                                      Yields-map (Yields-keeps (withdrawal_view-Keeps r) bound)
                                        λ view t still. Yields-pure _ still))))))))))))))))

  pub Yields-create_withdrawal :
      (s : Daemon)
      → Yields (create_withdrawal p w request) s (λ _ t. IsBound request.request_id t.db)
  unfolding create_withdrawal
  Yields-create_withdrawal s = Yields-then (
      Yields-require _ _ λ valid. Yields-bind (
        Yields-lift _ λ destination parsed. Yields-bind (
          Yields-lift _ λ value asked. Yields-bind (
            Yields-lift _ λ fee offered. Yields-bind (
              Yields-query _ _
                λ existing found. Yields-withdraw destination value fee existing _ found)))))

-- After a success of `CreateWithdrawal`, and after any statements of the journal's store behind it, by
-- whatever operations and in whatever order, no call with that request identifier writes to the
-- journal or submits anything, whatever it asks for and however it ends, and none that succeeds
-- reports a creation; the node may answer anything, and the daemon may have been restarted.
pub create_withdrawal-once :
    (p : Platform) (w w' : World) (request again : WithdrawalRequest) (s s' t : Daemon)
    (v : WithdrawalView × Bool)
    → create_withdrawal p w request s ≡ (ok v, s')
    → Writes p s'.db t.db
    → again.request_id ≡ request.request_id
    → SameJournal t (create_withdrawal p w' again t).1
      × ((v' : WithdrawalView × Bool) (t' : Daemon)
          → create_withdrawal p w' again t ≡ (ok v', t')
          → v'.1 ≡ false)
create_withdrawal-once p w w' request again s s' t v first between id =
    let bound = (Yields-create_withdrawal p w request s).at v s' first in
    let still = Writes-IsBound p request.request_id between bound in
    let known = create_withdrawal-known p w' again t (rw id still) in
    (known.0, λ v' t' e. (known.1 v' t' e).0)
