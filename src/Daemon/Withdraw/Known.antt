-- ===== src/Daemon/Withdraw/Known.antt =====
-- `CreateWithdrawal` for a request that the journal has: nothing is written and nothing submitted.
use qday_walletd.Common.{ℕ, ◌≡◌, refl, Bool, false, some, arith}
use qday_walletd.Types.{Platform, Currency, ok}
use qday_walletd.Meta.Withdrawals.{Withdrawal, withdrawal}
use qday_walletd.Meta.Withdrawals.Bound.{IsBound, withdrawal-IsBound}
use qday_walletd.Daemon.Inputs.{parse_positive_currency, default_fee}
use qday_walletd.Daemon.Machine.{World, Daemon}
use qday_walletd.Daemon.Steps.{
  Yields, Yields-bind, Yields-then, Yields-map, Yields-any, Yields-pure, Yields-lift, Yields-query,
  Yields-require,
}
use qday_walletd.Daemon.Invariant.{
  Preserves, Settles, IsTimeless, Settles-bind, Settles-then, Settles-preserves, Preserves-require,
  Preserves-lift, Preserves-query, preserves_rules,
}
use qday_walletd.Daemon.Withdraw.{
  WithdrawalRequest, WithdrawalView, withdrawal_view, withdraw, create_withdrawal,
}
use qday_walletd.Daemon.Withdraw.Reading.{withdrawal_view-Preserves}

-- Neither the journal nor what was done outside has changed.
abbrev pub SameJournal : Daemon → Daemon → Type 0
SameJournal s t = (t.db ≡ s.db) × (t.trace ≡ s.trace)

SameJournal-IsTimeless : (s : Daemon) → IsTimeless (SameJournal s)
SameJournal-IsTimeless s = record { at_tick = λ t h. h }

-- The request asks for what the record says.
pub record IsSameRequest (p : Platform) (request : WithdrawalRequest) (r : Withdrawal)
    : Type 0 where
  pub destination : p.parse_address request.destination ≡ ok r.destination
  pub amount : parse_positive_currency p request.amount_atomic "amountAtomic" ≡ ok r.amount
  pub fee : default_fee p request.fee_atomic ≡ ok r.fee

module _ (p : Platform) (w : World) (request : WithdrawalRequest) (s : Daemon) where
  withdraw-Preserves :
      (destination : ℕ) (value fee : Currency) (r : Withdrawal)
      → Preserves (SameJournal s) (withdraw p w request destination value fee (some r))
  unfolding withdraw
  withdraw-Preserves destination value fee r =
      let i = SameJournal-IsTimeless s in search (preserves_rules, i, withdrawal_view-Preserves)

  withdraw_known :
      (destination : ℕ) (value fee : Currency) (r : Withdrawal) (t : Daemon)
      → Yields (withdraw p w request destination value fee (some r)) t (λ v _.
        (v.1 ≡ false) × (destination ≡ r.destination) × (value ≡ r.amount) × (fee ≡ r.fee))
  unfolding withdraw
  withdraw_known destination value fee r t = Yields-then (
      Yields-require _ _ λ same. Yields-bind (
        Yields-map (Yields-any (withdrawal_view p w r))
          λ view u any_view. Yields-pure _ (refl, ground arith, ground arith, ground arith)))

  settles_known :
      IsBound request.request_id s.db → Settles (create_withdrawal p w request) s (SameJournal s)
  unfolding create_withdrawal
  settles_known bound =
      let i = SameJournal-IsTimeless s in
      let start : SameJournal s s = (refl, refl) in
      Settles-then (Settles-preserves (Preserves-require _ _) start) (
        Yields-require _ _ λ valid. Settles-bind (Settles-preserves (Preserves-lift _) start) (
          Yields-lift _ λ destination parsed.
            Settles-bind (Settles-preserves (Preserves-lift _) start) (
              Yields-lift _ λ value asked.
                Settles-bind (Settles-preserves (Preserves-lift _) start) (
                  Yields-lift _ λ fee offered.
                    Settles-bind (Settles-preserves (Preserves-query i _ _) start) (
                      Yields-query _ _ λ existing found.
                        let (r, known) =
                          withdrawal-IsBound p request.request_id s.db existing bound found in
                        rw known (
                          Settles-preserves (withdraw-Preserves destination value fee r) start))))))

  yields_known :
      IsBound request.request_id s.db
      → Yields (create_withdrawal p w request) s (λ v _.
        (v.1 ≡ false)
        × ((r : Withdrawal) × (withdrawal p request.request_id s.db ≡ ok (some r))
            × IsSameRequest p request r))
  unfolding create_withdrawal
  yields_known bound = Yields-then (
      Yields-require _ _ λ valid. Yields-bind (
        Yields-lift _ λ destination parsed. Yields-bind (
          Yields-lift _ λ value asked. Yields-bind (
            Yields-lift _ λ fee offered. Yields-bind (
              Yields-query _ _ λ existing found.
                let (r, known) =
                  withdrawal-IsBound p request.request_id s.db existing bound found in
                rw known (
                  Yields-map (withdraw_known destination value fee r _) λ v t same. (
                    same.0,
                    (
                      r,
                      rw known at found,
                      record {
                        destination = rw (← same.1) parsed;
                        amount = rw (← same.2) asked;
                        fee = rw (← same.3) offered;
                      },
                    ),
                  )))))))

-- For a request that the journal has, `CreateWithdrawal` leaves the journal and the outside as they
-- were, however it ends. Where it succeeds it reports that nothing was created, and the request
-- asks for the recorded destination, amount and fee: any other request is refused.
pub create_withdrawal-known :
    (p : Platform) (w : World) (request : WithdrawalRequest) (s : Daemon)
    → IsBound request.request_id s.db
    → SameJournal s (create_withdrawal p w request s).1
      × ((v : WithdrawalView × Bool) (t : Daemon)
          → create_withdrawal p w request s ≡ (ok v, t)
          → (v.1 ≡ false)
            × ((r : Withdrawal) × (withdrawal p request.request_id s.db ≡ ok (some r))
                × IsSameRequest p request r))
create_withdrawal-known p w request s bound =
    ((settles_known p w request s bound).final, (yields_known p w request s bound).at)
