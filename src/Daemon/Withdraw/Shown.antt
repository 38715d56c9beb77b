-- ===== src/Daemon/Withdraw/Shown.antt =====
-- What the client is shown of a withdrawal, whatever its status.
use qday_walletd.Common.{
  ℕ, String, ◌≡◌, refl, ◌==◌, str_eq, any, Option, none, some, List, [], ◌∷◌, Bool-cases, inl, inr,
}
use qday_walletd.Types.{Platform, Transaction, ChainIndex, ConsensusState}
use qday_walletd.Meta.Withdrawals.{Withdrawal}
use qday_walletd.Daemon.Machine.{World, Daemon, Event}
use qday_walletd.Daemon.Steps.{
  Yields, Yields-bind, Yields-pure, Yields-ask, Yields-ask_result, Yields-if,
}
use qday_walletd.Daemon.Withdraw.{
  WithdrawalView, confirmed_view, pooled_view, on_best, unconfirmed_view, recorded_view, event_view,
  withdrawal_view,
}

-- A view shows the record's request, transaction, destination and amounts.
pub record Shows (p : Platform) (r : Withdrawal) (v : WithdrawalView) : Type 0 where
  pub request_id : v.request_id ≡ r.request_id
  pub transaction_id : v.transaction_id ≡ p.id_string (p.transaction_id r.transaction)
  pub destination : v.destination ≡ p.address_string r.destination
  pub amount_atomic : v.amount.atomic ≡ p.exact_string r.amount
  pub fee_atomic : v.fee.atomic ≡ p.exact_string r.fee

module _ (p : Platform) (w : World) (r : Withdrawal) where
  confirmed_view-Shows :
      (v : WithdrawalView) (index : ChainIndex) (n : ℕ)
      → Shows p r v
      → Shows p r (confirmed_view p index n v)
  confirmed_view-Shows v index n h = record {
    request_id = h.request_id;
    transaction_id = h.transaction_id;
    destination = h.destination;
    amount_atomic = h.amount_atomic;
    fee_atomic = h.fee_atomic;
  }

  status-Shows :
      (v : WithdrawalView) (status last_error : String)
      → Shows p r v
      → Shows p r (record v { status = status; last_error = last_error })
  status-Shows v status last_error h = record {
    request_id = h.request_id;
    transaction_id = h.transaction_id;
    destination = h.destination;
    amount_atomic = h.amount_atomic;
    fee_atomic = h.fee_atomic;
  }

  pooled_view-Shows :
      (v : WithdrawalView) (pool : List Transaction)
      → Shows p r v
      → Shows p r (pooled_view p r pool v)
  pooled_view-Shows v pool h =
      elim (Bool-cases (any (λ t. p.transaction_id t == p.transaction_id r.transaction) pool)) [
        | inl pooled ↦ rw pooled (status-Shows v "mempool" "" h)
        | inr gone ↦ elim (Bool-cases (str_eq r.last_error "")) [
          | inl fine ↦ rw (gone, fine) h
          | inr failed ↦ rw (gone, failed) (status-Shows v "retrying" v.last_error h)
        ]
      ]

  Yields-unconfirmed_view :
      (v : WithdrawalView) (s : Daemon)
      → Shows p r v
      → Yields (unconfirmed_view p w r v) s (λ u _. Shows p r u)
  unfolding unconfirmed_view
  Yields-unconfirmed_view v s h =
      Yields-bind (Yields-ask _ (Yields-pure _ (pooled_view-Shows v _ h)))

  Yields-recorded_view :
      (cs : ConsensusState) (index : Option ChainIndex) (v : WithdrawalView) (s : Daemon)
      → Shows p r v
      → Yields (recorded_view p w cs r index v) s (λ u _. Shows p r u)
  unfolding recorded_view
  Yields-recorded_view cs none v s h = Yields-unconfirmed_view v s h
  Yields-recorded_view cs (some index) v s h = Yields-bind (
      Yields-ask _ (
        Yields-if (on_best (w.best_index s.clock index.height) index)
          (λ best. Yields-pure _ (confirmed_view-Shows v index _ h))
          (λ orphaned. Yields-unconfirmed_view v _ h)))

  Yields-event_view :
      (cs : ConsensusState) (v : WithdrawalView) (events : List Event) (s : Daemon)
      → Shows p r v
      → Yields (event_view p w cs r v events) s (λ u _. Shows p r u)
  unfolding event_view
  Yields-event_view cs v [] s h = Yields-recorded_view cs r.confirmed v s h
  Yields-event_view cs v (e ∷ events) s h = Yields-pure _ (confirmed_view-Shows v e.index _ h)

  pub Yields-withdrawal_view : (s : Daemon) → Yields (withdrawal_view p w r) s (λ v _. Shows p r v)
  unfolding withdrawal_view
  Yields-withdrawal_view s = Yields-bind (
      Yields-ask _ (
        Yields-bind (
          Yields-ask_result _ λ events listed.
            Yields-event_view (w.tip_state s.clock) _ events _ (record {
              request_id = refl;
              transaction_id = refl;
              destination = refl;
              amount_atomic = refl;
              fee_atomic = refl;
            }))))
