-- ===== src/Daemon/Swap/Journaled.antt =====
-- What is submitted for a swap is on disk before it is submitted.
use qday_walletd.Common.{ℕ, String, Option, none, some, [], ◌∷◌}
use qday_walletd.Types.{Platform, Currency, Result, ok, err}
use qday_walletd.Meta.Swaps.{Swap}
use qday_walletd.Meta.Actions.{SwapAction}
use qday_walletd.Daemon.Machine.{World, Daemon, wake}
use qday_walletd.Daemon.Journaled.{
  AllJournaled, IsOnDisk, timeless, about, inserted_action, add_pool_settles,
}
use qday_walletd.Daemon.Steps.{Yields-statement}
use qday_walletd.Daemon.Invariant.{
  Preserves, Settles, Settles-then, Settles-go, Settles-after, Settles-after_then, Preserves-bind,
  Preserves-require, Preserves-ask_result, Preserves-lift, Preserves-query, Settles-attempt,
  Settles-preserves, Preserves-then, Preserves-pure, Preserves-fail, Preserves-emit, Preserves-ask,
  Preserves-statement, preserves_rules,
}
use qday_walletd.Daemon.Chain.Kept.{network_synced-Preserves, broadcast-Preserves}
use qday_walletd.Daemon.Wallet.Preserved.{master_seed-Preserves}
use qday_walletd.Daemon.Transfer.Preserved.{build_custody_transfer-Preserves}
use qday_walletd.Daemon.Swap.Action.{broadcast_action, submit_swap_action}
use qday_walletd.Daemon.Swap.Fund.{FundSwapRequest, known_swap, record_action, fund, fund_swap}
use qday_walletd.Daemon.Swap.Spend.{SpendSide, SpendSwapRequest, read_id, spend, spend_swap}
use qday_walletd.Daemon.Swap.Kept.{swap_action_view-Preserves, build_spend-Preserves}

module _ (p : Platform) (w : World) where
  broadcast_action-Preserves :
      (a : SwapAction) (added : Result (Unit {0}))
      → Preserves (AllJournaled p) (broadcast_action p w a added)
  unfolding broadcast_action
  broadcast_action-Preserves a (err e) = Preserves-pure _
  broadcast_action-Preserves a (ok u) =
      let i = timeless p in let j = about p in search (preserves_rules, broadcast-Preserves, i, j)

  submit_settles :
      (a : SwapAction) (s : Daemon)
      → AllJournaled p s
      → IsOnDisk p s.db a.basis (a.transaction ∷ [])
      → Settles (submit_swap_action p w a) s (AllJournaled p)
  unfolding submit_swap_action
  submit_settles a s h on_disk =
      let i = timeless p in
      let j = about p in
      Settles-go (Settles-attempt (add_pool_settles p w a.basis (a.transaction ∷ []) s h on_disk))
        (λ added. Preserves-bind _ _ (broadcast_action-Preserves a added) (λ failed.
          Preserves-bind _ _ (search (preserves_rules, i, j)) (λ ignored.
            Preserves-then _ _ (Preserves-emit wake (λ t held. (tt, held))) (Preserves-pure _))))

  record_settles :
      (a : SwapAction) (s : Daemon)
      → AllJournaled p s
      → Settles (record_action p w a) s (AllJournaled p)
  unfolding record_action
  record_settles a s h =
      let i = timeless p in
      Settles-then (Settles-preserves (Preserves-statement i (about p) w _) h) (
        Yields-statement _ _ λ db inserted.
          Settles-go (submit_settles a _ h (inserted_action p a _ db inserted))
            (λ r. search (preserves_rules, swap_action_view-Preserves, i)))

  fund_settles :
      (swap_id : String) (request : FundSwapRequest) (value fee : Currency) (c : Swap)
      (existing : Option SwapAction) (s : Daemon)
      → AllJournaled p s
      → Settles (fund p w swap_id request value fee c existing) s (AllJournaled p)
  unfolding fund
  fund_settles swap_id request value fee c (some a) s h =
      let i = timeless p in
      Settles-preserves (search (preserves_rules, swap_action_view-Preserves, i)) h
  fund_settles swap_id request value fee c none s h =
      let i = timeless p in
      let j = about p in
      Settles-after master_seed-Preserves h λ master t0 h0.
        Settles-after (network_synced-Preserves w i) h0 λ synced t1 h1.
          Settles-after_then (Preserves-require _ _) h1 λ t2 h2.
            Settles-after (Preserves-ask i _) h2 λ cs t3 h3.
              Settles-after (Preserves-ask_result i _) h3 λ scan t4 h4.
                Settles-after_then (Preserves-require _ _) h4 λ t5 h5.
                  Settles-after_then (Preserves-require _ _) h5 λ t6 h6.
                    Settles-after_then (Preserves-require _ _) h6 λ t7 h7.
                      Settles-after_then (Preserves-require _ _) h7 λ t8 h8.
                        Settles-after
                          (build_custody_transfer-Preserves p w cs i j master c.address value fee)
                          h8
                          λ txn t9 h9.
                            Settles-after (Preserves-ask i _) h9 λ now t h'. record_settles _ t h'

  known_swap-Preserves : (found : Option Swap) → Preserves (AllJournaled p) (known_swap found)
  known_swap-Preserves none = Preserves-fail _
  known_swap-Preserves (some c) = Preserves-pure _

  read_id-Preserves : (r : Result ℕ) → Preserves (AllJournaled p) (read_id p w r)
  read_id-Preserves (ok id) = Preserves-pure _
  read_id-Preserves (err e) = Preserves-fail _

  -- Whatever `FundSwap` submits to the pool was in the journal on disk when it was submitted, however
  -- the call ends.
  pub fund_swap-AllJournaled :
      (swap_id : String) (request : FundSwapRequest) (s : Daemon)
      → AllJournaled p s
      → AllJournaled p (fund_swap p w swap_id request s).1
  unfolding fund_swap
  fund_swap-AllJournaled swap_id request s h =
      let i = timeless p in
      (Settles-after (Preserves-lift _) h λ value t0 h0.
        Settles-after (Preserves-lift _) h0 λ fee t1 h1.
          Settles-after (Preserves-query i _ _) h1 λ found t2 h2.
            Settles-after (known_swap-Preserves found) h2 λ c t3 h3.
              Settles-after (Preserves-query i _ _) h3
                λ existing t4 h4. fund_settles swap_id request value fee c existing t4 h4).final

  spend_settles :
      (swap_id : String) (side : SpendSide) (request : SpendSwapRequest) (id : ℕ) (fee : Currency)
      (secret : ℕ) (c : Swap) (existing : Option SwapAction) (s : Daemon)
      → AllJournaled p s
      → Settles (spend p w swap_id side request id fee secret c existing) s (AllJournaled p)
  unfolding spend
  spend_settles swap_id side request id fee secret c (some a) s h =
      let i = timeless p in
      Settles-preserves (search (preserves_rules, swap_action_view-Preserves, i)) h
  spend_settles swap_id side request id fee secret c none s h =
      let i = timeless p in
      let j = about p in
      Settles-after master_seed-Preserves h λ master t0 h0.
        Settles-after (Preserves-lift _) h0 λ keys t1 h1.
          Settles-after (Preserves-query i _ _) h1 λ session t2 h2.
            Settles-after_then (Preserves-require _ _) h2 λ t3 h3.
              Settles-after (network_synced-Preserves w i) h3 λ synced t4 h4.
                Settles-after_then (Preserves-require _ _) h4 λ t5 h5.
                  Settles-after (Preserves-ask i _) h5 λ cs t6 h6.
                    Settles-after (Preserves-ask_result i _) h6 λ scan t7 h7.
                      Settles-after_then (Preserves-require _ _) h7 λ t8 h8.
                        Settles-after_then (Preserves-require _ _) h8 λ t9 h9.
                          Settles-after_then (Preserves-require _ _) h9 λ ta ha.
                            Settles-after
                              (build_spend-Preserves p w i j cs side id fee secret c keys) ha
                              λ built tb hb.
                                Settles-after (Preserves-ask i _) hb
                                  λ now t h'. record_settles _ t h'

  -- Whatever `ClaimSwap` and `RefundSwap` submit to the pool was in the journal on disk when it was
  -- submitted, however the call ends.
  pub spend_swap-AllJournaled :
      (swap_id : String) (side : SpendSide) (request : SpendSwapRequest) (s : Daemon)
      → AllJournaled p s
      → AllJournaled p (spend_swap p w swap_id side request s).1
  unfolding spend_swap
  spend_swap-AllJournaled swap_id side request s h =
      let i = timeless p in
      (Settles-after (read_id-Preserves _) h λ id t0 h0.
        Settles-after (Preserves-lift _) h0 λ fee t1 h1.
          Settles-after (Preserves-lift _) h1 λ secret t2 h2.
            Settles-after (Preserves-query i _ _) h2 λ found t3 h3.
              Settles-after (known_swap-Preserves found) h3 λ c t4 h4.
                Settles-after_then (Preserves-require _ _) h4 λ t5 h5.
                  Settles-after (Preserves-query i _ _) h5 λ existing t6 h6.
                    spend_settles swap_id side request id fee secret c existing t6 h6).final
