-- ===== src/Daemon/Outputs/Preserved.antt =====
-- Reading the outputs submits nothing.
use qday_walletd.Common.{ℕ, zero, suc, List}
use qday_walletd.Types.{Platform, Transaction, ConsensusState}
use qday_walletd.Daemon.Machine.{World, Daemon}
use qday_walletd.Daemon.Invariant.{Preserves, IsTimeless, Preserves-fail, preserves_rules}
use qday_walletd.Daemon.Outputs.{spendable_outputs, outputs_from}

module _ (p : Platform) (w : World) (cs : ConsensusState) {I : Daemon → Type 0}
    (i : IsTimeless I) where
  outputs_from-Preserves :
      (pool : List Transaction) (fuel offset : ℕ)
      → Preserves I (outputs_from p w cs pool fuel offset)
  unfolding outputs_from
  outputs_from-Preserves pool zero offset = Preserves-fail _
  outputs_from-Preserves pool (suc fuel) offset =
      search (preserves_rules, i, outputs_from-Preserves pool fuel)

  pub spendable_outputs-Preserves : Preserves I (spendable_outputs p w cs)
  unfolding spendable_outputs
  spendable_outputs-Preserves = search (preserves_rules, i, outputs_from-Preserves)
