-- ===== src/Daemon/Swap/Funded.antt =====
-- The funding of a contract: it pays the contract, in time, and is shown to the client.
use qday_walletd.Common.{
  ◌+◌, ◌<◌, String, ◌≡◌, refl, Bool, true, Option, none, some, List, arith, ltb→lt,
}
use qday_walletd.Types.{Platform, Transaction, ConsensusState, Currency, Result, ok}
use qday_walletd.Meta.Swaps.{Swap, swap_contract, swap}
use qday_walletd.Meta.Swaps.Contracts.{swap-contract_address}
use qday_walletd.Meta.Actions.{SwapAction}
use qday_walletd.Daemon.Machine.{World, Daemon}
use qday_walletd.Daemon.Steps.{
  Yields, Yields-bind, Yields-then, Yields-map, Yields-any, Yields-pure, Yields-fail, Yields-lift,
  Yields-ask, Yields-ask_result, Yields-query, Yields-require,
}
use qday_walletd.Daemon.Inputs.{parse_positive_currency, default_fee}
use qday_walletd.Daemon.Transfer.Balance.{IsTransfer, Yields-build_custody_transfer}
use qday_walletd.Daemon.Withdraw.Paid.{expected_unit}
use qday_walletd.Daemon.Swap.Action.{SwapActionView}
use qday_walletd.Daemon.Swap.Fund.{FundSwapRequest, known_swap, fund_action, fund, fund_swap}
use qday_walletd.Daemon.Swap.Shown.{ShowsAction, Yields-record_action}

-- A funding that was created: a transfer of the amount and at the fee that were asked for, to the
-- address that the contract on disk has, in the denomination that the client expected; swaps are
-- active in the next block, and the refund is not yet open in it.
pub record IsFunding (p : Platform) (w : World) (swap_id : String) (request : FundSwapRequest)
    (s : Daemon) (v : SwapActionView) : Type 0 where
  pub contract : Swap
  pub action : SwapAction
  pub cs : ConsensusState
  pub pool : List Transaction
  pub stored : swap p swap_id s.db ≡ ok (some contract)
  pub is_fund : action.kind ≡ "fund"
  pub to_contract : p.contract_address (swap_contract contract) ≡ ok action.destination
  pub amount : parse_positive_currency p request.amount_atomic "amountAtomic" ≡ ok action.amount
  pub fee : default_fee p request.fee_atomic ≡ ok action.fee
  pub unit : request.expected_unit_atomic ≡ p.exact_string (p.qday_units cs cs.index.height)
  pub active : p.v1_active cs (cs.index.height + 1) ≡ true
  pub before_refund : cs.index.height + 1 < contract.refund_height
  pub transfer :
      IsTransfer p w cs pool action.destination action.amount action.fee action.transaction
  pub shown : ShowsAction p action v

-- A contract that is not found ends the run.
pub Yields-known_swap :
    {Q : Swap → Daemon → Type 0} (found : Option Swap) {read : Result (Option Swap)} {u : Daemon}
    → read ≡ ok found
    → ((c : Swap) → read ≡ ok (some c) → Q c u)
    → Yields (known_swap found) u Q
Yields-known_swap none looked q = Yields-fail _
Yields-known_swap (some c) looked q = Yields-pure c (q c looked)

module _ (p : Platform) (w : World) (swap_id : String) (request : FundSwapRequest) where
  Yields-fund :
      (value fee : Currency) (c : Swap) (existing : Option SwapAction) (s t : Daemon)
      → swap p swap_id s.db ≡ ok (some c)
      → parse_positive_currency p request.amount_atomic "amountAtomic" ≡ ok value
      → default_fee p request.fee_atomic ≡ ok fee
      → Yields
          (fund p w swap_id request value fee c existing)
          t
          (λ v _. v.1 ≡ true → IsFunding p w swap_id request s v.0)
  unfolding fund
  Yields-fund value fee c (some a) s t stored asked offered = Yields-then (
      Yields-require _ _ λ same.
        Yields-bind
          (Yields-map (Yields-any _) λ view t u. Yields-pure _ (λ created. absurd (ground arith))))
  Yields-fund value fee c none s t stored asked offered = Yields-bind (
      Yields-map (Yields-any _) λ master t u. Yields-bind (
        Yields-map (Yields-any _) λ synced t3 u. Yields-then (
          Yields-require _ _ λ in_touch. Yields-bind (
            Yields-ask _ (
              Yields-bind (
                Yields-ask_result _ λ scan scanned. Yields-then (
                  Yields-require _ _ λ current. Yields-then (
                    Yields-require _ _ λ active. Yields-then (
                      Yields-require _ _ λ early. Yields-then (
                        Yields-require _ _ λ expected. Yields-bind (
                          Yields-map
                            (Yields-build_custody_transfer p w _ master c.address value fee _)
                            λ txn t4 paid. Yields-bind (
                              Yields-ask _ (
                                Yields-map (Yields-record_action p w _ _) λ v t shown created.
                                  record {
                                    contract = c;
                                    action =
                                        fund_action swap_id c.address value fee txn
                                          (w.tip_state t3.clock).index (w.now t4.clock);
                                    cs = _;
                                    pool = _;
                                    stored = stored;
                                    is_fund = refl;
                                    to_contract = (swap-contract_address p swap_id s.db c stored).0;
                                    amount = asked;
                                    fee = offered;
                                    unit = expected_unit _ _ expected;
                                    active = active;
                                    before_refund = ltb→lt _ _ early;
                                    transfer = paid;
                                    shown = shown.0;
                                  })))))))))))))

  -- A success of `FundSwap` that reports a creation made a transfer of the amount and at the fee that
  -- the request spells, to the address of the contract that the journal holds for the swap, while
  -- swaps were active and at a height at which the refund is not open in the next block; the client is
  -- shown that transaction.
  pub fund_swap-IsFunding :
      (s t : Daemon) (v : SwapActionView × Bool)
      → fund_swap p w swap_id request s ≡ (ok v, t)
      → v.1 ≡ true
      → IsFunding p w swap_id request s v.0
  unfolding fund_swap
  fund_swap-IsFunding s t v ran = run.at v t ran
    where
      run :
          Yields
            (fund_swap p w swap_id request)
            s
            (λ v _. v.1 ≡ true → IsFunding p w swap_id request s v.0)
      run = Yields-bind (
          Yields-lift _ λ value asked. Yields-bind (
            Yields-lift _ λ fee offered. Yields-bind (
              Yields-query _ _ λ found looked. Yields-bind (
                Yields-known_swap found looked λ c stored. Yields-bind (
                  Yields-query _ _
                    λ existing had. Yields-fund value fee c existing s _ stored asked offered)))))
