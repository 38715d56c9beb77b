-- ===== src/Daemon/Swap/Fund.antt =====
-- internal/daemon/swap.go: the funding of a contract out of the custody wallet.
use qday_walletd.Common.{
  ℕ, ◌+◌, String, str_append, Bool, true, false, not, ◌&&◌, Option, none, some, ltb, ◌==◌, str_eq,
  decimal,
}
use qday_walletd.Types.{Platform, Transaction, ChainIndex, Currency, failure, same_index}
use qday_walletd.Meta.Swaps.{Swap, swap}
use qday_walletd.Meta.Actions.{SwapAction, swap_action, add_swap_action}
use qday_walletd.Daemon.Machine.{
  World, Action, pure, fail, lift, ask, ask_result, query, ◌>>=◌, ◌>>◌, require, statement,
}
use qday_walletd.Daemon.Inputs.{parse_positive_currency, default_fee}
use qday_walletd.Daemon.Chain.{network_synced}
use qday_walletd.Daemon.Wallet.{master_seed}
use qday_walletd.Daemon.Transfer.{build_custody_transfer}
use qday_walletd.Daemon.Swap.Action.{SwapActionView, swap_action_view, submit_swap_action}

pub record FundSwapRequest : Type 0 where
  pub amount_atomic : String
  pub fee_atomic : String
  pub expected_unit_atomic : String

abbrev pub known_swap : Option Swap → Action Swap
known_swap none = fail (failure "atomic swap not found")
known_swap (some s) = pure s

-- `fmt.Errorf("atomic swaps activate at block %d", height)`
abbrev pub activation_text : ℕ → String
unfolding decimal
activation_text height = str_append "atomic swaps activate at block " (decimal height)

abbrev pub fund_action :
    String → ℕ → Currency → Currency → Transaction → ChainIndex → ℕ → SwapAction
fund_action swap_id destination value fee txn basis now = record {
  action_id = str_append swap_id ":fund";
  swap_id = swap_id;
  kind = "fund";
  output_id = "";
  transaction = txn;
  basis = basis;
  confirmed = none;
  destination = destination;
  amount = value;
  fee = fee;
  created_at = now;
  last_error = "";
}

module _ (p : Platform) (w : World) where
  -- From `AddSwapAction` to the end, as for a claim and a refund.
  unfoldable pub record_action : SwapAction → Action (SwapActionView × Bool)
  record_action a = do
    statement w (add_swap_action p a)
    submitted ← submit_swap_action p w a
    view ← swap_action_view p w submitted
    pure (view, true)

  -- The part of `FundSwap` behind the lookup of the action; the flag says "created".
  unfoldable pub fund :
      String
      → FundSwapRequest
      → Currency
      → Currency
      → Swap
      → Option SwapAction
      → Action (SwapActionView × Bool)
  fund swap_id request value fee s (some existing) = do
    require (existing.amount == value && existing.fee == fee && existing.destination == s.address)
        (failure "this swap is already bound to different funding parameters")
    view ← swap_action_view p w existing
    pure (view, false)
  fund swap_id request value fee s none = do
    master ← master_seed
    synced ← network_synced w
    require synced (failure "QDAY node has no synchronized peer")
    cs ← ask w.tip_state
    scan ← ask_result w.wallet_tip
    require (same_index scan cs.index) (failure "wallet index is synchronizing")
    require (p.v1_active cs (cs.index.height + 1)) (failure (activation_text cs.v1_height))
    require (ltb (cs.index.height + 1) s.refund_height) (
        failure
          "refusing to fund a contract whose refund branch is already active at the next block")
    let unit = p.exact_string (p.qday_units cs cs.index.height)
    require
        (not (str_eq request.expected_unit_atomic "") && str_eq request.expected_unit_atomic unit)
        (failure "expectedUnitAtomic does not match the active QDAY denomination")
    txn ← build_custody_transfer p w cs master s.address value fee
    now ← ask w.now
    record_action (fund_action swap_id s.address value fee txn cs.index now)

  -- `FundSwap`
  unfoldable pub fund_swap : String → FundSwapRequest → Action (SwapActionView × Bool)
  fund_swap swap_id request = do
    value ← lift (parse_positive_currency p request.amount_atomic "amountAtomic")
    fee ← lift (default_fee p request.fee_atomic)
    found ← query w (swap p swap_id)
    s ← known_swap found
    existing ← query w (swap_action p swap_id "fund" "")
    fund swap_id request value fee s existing
