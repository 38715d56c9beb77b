-- ===== src/Daemon/Withdraw/Reading.antt =====
-- What a client sees of a withdrawal is only read.
use qday_walletd.Common.{Option, none, some, List, [], ◌∷◌}
use qday_walletd.Types.{Platform, ChainIndex, ConsensusState}
use qday_walletd.Meta.Withdrawals.{Withdrawal}
use qday_walletd.Daemon.Machine.{World, Daemon, Event}
use qday_walletd.Daemon.Invariant.{Preserves, IsTimeless, Preserves-pure, preserves_rules}
use qday_walletd.Daemon.Withdraw.{
  WithdrawalView, withdrawal_view, event_view, recorded_view, unconfirmed_view,
}

module _ (p : Platform) (w : World) {I : Daemon → Type 0} (i : IsTimeless I) where
  unconfirmed_view-Preserves :
      (r : Withdrawal) (v : WithdrawalView) → Preserves I (unconfirmed_view p w r v)
  unfolding unconfirmed_view
  unconfirmed_view-Preserves r v = search (preserves_rules, i)

  recorded_view-Preserves :
      (cs : ConsensusState) (r : Withdrawal) (index : Option ChainIndex) (v : WithdrawalView)
      → Preserves I (recorded_view p w cs r index v)
  unfolding recorded_view
  recorded_view-Preserves cs r none v = unconfirmed_view-Preserves r v
  recorded_view-Preserves cs r (some index) v =
      search (preserves_rules, i, unconfirmed_view-Preserves)

  event_view-Preserves :
      (cs : ConsensusState) (r : Withdrawal) (v : WithdrawalView) (events : List Event)
      → Preserves I (event_view p w cs r v events)
  unfolding event_view
  event_view-Preserves cs r v [] = recorded_view-Preserves cs r r.confirmed v
  event_view-Preserves cs r v (e ∷ events) = Preserves-pure _

  pub withdrawal_view-Preserves : (r : Withdrawal) → Preserves I (withdrawal_view p w r)
  unfolding withdrawal_view
  withdrawal_view-Preserves r = search (preserves_rules, i, event_view-Preserves)
