-- ===== src/Daemon/Withdraw/Paid.antt =====
-- What a withdrawal that was created pays, and what the client is shown of it.
use qday_walletd.Common.{
  ℕ, String, ◌≡◌, refl, Bool, true, not, ◌&&◌, str_eq, Option, none, some, List, arith, eq_iff,
}
use qday_walletd.Types.{Platform, Transaction, ConsensusState, Currency, Error, ok}
use qday_walletd.Meta.Withdrawals.{Withdrawal}
use qday_walletd.Daemon.Machine.{World, Daemon}
use qday_walletd.Daemon.Steps.{
  Yields, Yields-bind, Yields-then, Yields-map, Yields-any, Yields-pure, Yields-lift, Yields-ask,
  Yields-ask_result, Yields-query, Yields-require, Yields-statement, Yields-emit,
}
use qday_walletd.Daemon.Inputs.{parse_positive_currency, default_fee}
use qday_walletd.Daemon.Transfer.Balance.{IsTransfer, Yields-build_custody_transfer}
use qday_walletd.Daemon.Withdraw.Shown.{Shows, Yields-withdrawal_view}
use qday_walletd.Daemon.Withdraw.{
  WithdrawalRequest, WithdrawalView, note_error, submit_withdrawal, new_withdrawal, withdraw,
  create_withdrawal,
}

-- A created withdrawal: a transfer of the amount asked for to the destination asked for, at the fee
-- asked for, in the denomination that the client expected, and what the client is shown.
pub record IsPaid (p : Platform) (w : World) (request : WithdrawalRequest) (v : WithdrawalView)
    : Type 0 where
  pub record_of : Withdrawal
  pub cs : ConsensusState
  pub pool : List Transaction
  pub request_id : record_of.request_id ≡ request.request_id
  pub destination : p.parse_address request.destination ≡ ok record_of.destination
  pub amount : parse_positive_currency p request.amount_atomic "amountAtomic" ≡ ok record_of.amount
  pub fee : default_fee p request.fee_atomic ≡ ok record_of.fee
  pub unit : request.expected_unit_atomic ≡ p.exact_string (p.qday_units cs cs.index.height)
  pub transfer :
      IsTransfer p w cs pool record_of.destination record_of.amount record_of.fee
        record_of.transaction
  pub shown : Shows p record_of v

pub expected_unit : (s unit : String) → (not (str_eq s "") && str_eq s unit) ≡ true → s ≡ unit
expected_unit s unit e = ground (arith, eq_iff s unit)

module _ (p : Platform) (w : World) where
  -- Only the error of the record changes in a submission.
  Yields-submit_withdrawal :
      (r : Withdrawal) (s : Daemon)
      → Yields
          (submit_withdrawal p w r)
          s
          (λ r' _. (error : String) × (r' ≡ record r { last_error = error }))
  unfolding submit_withdrawal note_error
  Yields-submit_withdrawal r s = Yields-bind (
      Yields-map (Yields-any _)
        λ added t u. Yields-bind (Yields-map (Yields-any _) λ failed t u. noted failed t))
    where
      noted :
          (e : Option Error) (t : Daemon)
          → Yields
              (note_error p w r e)
              t
              (λ r' _. (error : String) × (r' ≡ record r { last_error = error }))
      noted none t = Yields-pure _ (r.last_error, refl)
      noted (some e) t =
          Yields-bind (Yields-map (Yields-any _) λ ignored t u. Yields-pure _ (_, refl))

  shown_first :
      (r r' : Withdrawal) (v : WithdrawalView) (error : String)
      → r' ≡ record r { last_error = error }
      → Shows p r' v
      → Shows p r v
  shown_first r r' v error same h =
      let g : Shows p (record r { last_error = error }) v = rw (← same) h in
      record {
        request_id = g.request_id;
        transaction_id = g.transaction_id;
        destination = g.destination;
        amount_atomic = g.amount_atomic;
        fee_atomic = g.fee_atomic;
      }

  Yields-withdraw-IsPaid :
      (request : WithdrawalRequest) (destination : ℕ) (value fee : Currency)
      (existing : Option Withdrawal) (s : Daemon)
      → p.parse_address request.destination ≡ ok destination
      → parse_positive_currency p request.amount_atomic "amountAtomic" ≡ ok value
      → default_fee p request.fee_atomic ≡ ok fee
      → Yields
          (withdraw p w request destination value fee existing)
          s
          (λ v _. v.1 ≡ true → IsPaid p w request v.0)
  unfolding withdraw
  Yields-withdraw-IsPaid request destination value fee (some r) s d a f = Yields-then (
      Yields-require _ _ λ same.
        Yields-bind
          (Yields-map (Yields-any _) λ view t u. Yields-pure _ (λ created. absurd (ground arith))))
  Yields-withdraw-IsPaid request destination value fee none s d a f = Yields-bind (
      Yields-map (Yields-any _) λ master t u. Yields-bind (
        Yields-map (Yields-any _) λ synced t u. Yields-then (
          Yields-require _ _ λ in_touch. Yields-bind (
            Yields-ask _ (
              Yields-bind (
                Yields-ask_result _ λ scan scanned. Yields-then (
                  Yields-require _ _ λ current. Yields-then (
                    Yields-require _ _ λ expected. Yields-bind (
                      Yields-map
                        (Yields-build_custody_transfer p w _ master destination value fee _)
                        λ txn t paid. Yields-bind (
                          Yields-ask _ (
                            Yields-then (
                              Yields-statement _ _ λ db inserted. Yields-bind (
                                Yields-map (Yields-submit_withdrawal _ _) λ r t submitted.
                                  Yields-then (
                                    Yields-emit _ (
                                      Yields-bind (
                                        Yields-map (Yields-withdrawal_view p w r _) λ view t shown.
                                          Yields-pure _ (λ created. record {
                                            record_of =
                                                new_withdrawal request.request_id destination value
                                                  fee txn _ _;
                                            cs = _;
                                            pool = _;
                                            request_id = refl;
                                            destination = d;
                                            amount = a;
                                            fee = f;
                                            unit = expected_unit _ _ expected;
                                            transfer = paid;
                                            shown =
                                                shown_first
                                                  (new_withdrawal request.request_id destination
                                                    value fee txn _ _)
                                                  r view submitted.0 submitted.1 shown;
                                          })))))))))))))))))

  -- A success that reports a creation made a transfer of the amount, to the destination and with the
  -- fee that the request spells, while the denomination was the one that it expects; the client is
  -- shown that transaction.
  pub create_withdrawal-IsPaid :
      (request : WithdrawalRequest) (s t : Daemon) (v : WithdrawalView × Bool)
      → create_withdrawal p w request s ≡ (ok v, t)
      → v.1 ≡ true
      → IsPaid p w request v.0
  unfolding create_withdrawal
  create_withdrawal-IsPaid request s t v ran = run.at v t ran
    where
      run : Yields (create_withdrawal p w request) s (λ v _. v.1 ≡ true → IsPaid p w request v.0)
      run = Yields-then (
          Yields-require _ _ λ valid. Yields-bind (
            Yields-lift _ λ destination parsed. Yields-bind (
              Yields-lift _ λ value asked. Yields-bind (
                Yields-lift _ λ fee offered. Yields-bind (
                  Yields-query _ _ λ existing found.
                    Yields-withdraw-IsPaid request destination value fee existing _ parsed asked
                      offered)))))
