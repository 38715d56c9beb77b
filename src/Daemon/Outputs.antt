-- ===== src/Daemon/Outputs.antt =====
-- internal/daemon/service.go: the outputs that a transaction of the daemon may spend.
pub mod Fresh
pub mod Preserved
pub mod Enough
mod Tests
use qday_walletd.Common.{
  ℕ, zero, suc, ◌+◌, Bool, not, ◌&&◌, List, [], ◌++◌, any, keep, length, ltb, ◌==◌, if◌then◌else◌,
}
use qday_walletd.Types.{
  Platform, Transaction, SiacoinElement, SiacoinInput, ConsensusState, Currency, failure,
  same_index,
}
use qday_walletd.Daemon.Machine.{World, Action, pure, fail, ask, ask_result, ◌>>=◌, ◌>>◌, require}

abbrev pub page_size : ℕ
page_size = 500

-- An input of a transaction in the pool spends the output.
abbrev pub is_spent : List Transaction → ℕ → Bool
is_spent txns id =
    any (λ (t : Transaction). any (λ (i : SiacoinInput). i.parent.id == id) t.inputs) txns

module _ (p : Platform) (cs : ConsensusState) where
  -- What the output is worth in the block after the next.
  abbrev pub spend_value : SiacoinElement → Currency
  spend_value output = p.qday_value cs output (cs.index.height + 2)

  abbrev pub is_spendable : List Transaction → SiacoinElement → Bool
  is_spendable pool output = not (is_spent pool output.id) && not (spend_value output == 0)

module _ (p : Platform) (w : World) (cs : ConsensusState) where
  -- The loop over the pages; `fuel` bounds the pages that are read.
  pub outputs_from : List Transaction → ℕ → ℕ → Action (List SiacoinElement)
  outputs_from pool zero offset = fail (failure "out of fuel")
  outputs_from pool (suc fuel) offset = do
    answer ← ask_result (λ t. w.unspent t offset page_size)
    require (same_index answer.1 cs.index) (failure "wallet index is synchronizing")
    let found = keep (is_spendable p cs pool) answer.0
    let more = outputs_from pool fuel (offset + page_size) >>= λ rest. pure (found ++ rest)
    if ltb (length answer.0) page_size then pure found else more

  -- `spendableOutputs`
  unfoldable pub spendable_outputs : Action (List SiacoinElement)
  unfolding outputs_from
  spendable_outputs = do
    pool ← ask w.pool
    outputs ← outputs_from pool (suc w.page_bound) 0
    tip ← ask w.tip
    require (same_index tip cs.index) (failure "chain changed while reading wallet outputs")
    pure outputs
