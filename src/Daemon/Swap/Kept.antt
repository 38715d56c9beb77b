-- ===== src/Daemon/Swap/Kept.antt =====
-- What reading a swap and its actions leaves as it was.
use qday_walletd.Common.{ℕ, zero, suc, Option, none, some, List, [], ◌∷◌}
use qday_walletd.Types.{
  Platform, SiacoinElement, ConsensusState, Currency, Transaction, QdayPrivateKeys, AtomicSwap,
}
use qday_walletd.Meta.Swaps.{SwapKey, Swap}
use qday_walletd.Meta.Actions.{SwapAction}
use qday_walletd.Daemon.Machine.{World, Daemon, Event, Action}
use qday_walletd.Daemon.Invariant.{
  Preserves, IsTimeless, IsAboutSubmissions, Preserves-pure, Preserves-fail, preserves_rules,
}
use qday_walletd.Daemon.Wallet.Preserved.{new_address-Preserves}
use qday_walletd.Daemon.Swap.Action.{SwapActionView, action_event_view, swap_action_view}
use qday_walletd.Daemon.Swap.Listing.{event_pages, observed_swap_outputs}
use qday_walletd.Daemon.Swap.View.{known_session, action_views, swap_view}
use qday_walletd.Daemon.Swap.Spend.{
  SpendSide, claiming, refunding, sign_spend, find_swap_output, found_or, output_from, build_spend,
}

module _ (p : Platform) (w : World) {I : Daemon → Type 0} (i : IsTimeless I) where
  action_event_view-Preserves :
      (a : SwapAction) (v : SwapActionView) (events : List Event)
      → Preserves I (action_event_view p w a v events)
  unfolding action_event_view
  action_event_view-Preserves a v [] = search (preserves_rules, i)
  action_event_view-Preserves a v (e ∷ events) = Preserves-pure _

  pub swap_action_view-Preserves : (a : SwapAction) → Preserves I (swap_action_view p w a)
  unfolding swap_action_view
  swap_action_view-Preserves a = search (preserves_rules, i, action_event_view-Preserves)

  action_views-Preserves : (actions : List SwapAction) → Preserves I (action_views p w actions)
  unfolding action_views
  action_views-Preserves [] = Preserves-pure _
  action_views-Preserves (a ∷ actions) =
      search (preserves_rules, swap_action_view-Preserves a, action_views-Preserves actions) depth
        20

  event_pages-Preserves :
      (s : Swap) (pages offset : ℕ) → Preserves I (event_pages p w s pages offset)
  unfolding event_pages
  event_pages-Preserves s zero offset = Preserves-pure _
  event_pages-Preserves s (suc pages) offset =
      search (preserves_rules, i, event_pages-Preserves s pages) depth 20

  observed_swap_outputs-Preserves : (s : Swap) → Preserves I (observed_swap_outputs p w s)
  unfolding observed_swap_outputs
  observed_swap_outputs-Preserves s = search (preserves_rules, i, event_pages-Preserves) depth 20

  known_session-Preserves : (found : Option SwapKey) → Preserves I (known_session found)
  known_session-Preserves none = Preserves-fail _
  known_session-Preserves (some k) = Preserves-pure _

  pub swap_view-Preserves : (s : Swap) → Preserves I (swap_view p w s)
  unfolding swap_view
  swap_view-Preserves s =
      search
        (
          preserves_rules, i, known_session-Preserves, action_views-Preserves,
          observed_swap_outputs-Preserves,
        )
        depth 20

  output_from-Preserves :
      (s : Swap) (id : ℕ) (cs : ConsensusState) (fuel offset : ℕ)
      → Preserves I (output_from w s id cs fuel offset)
  unfolding output_from
  output_from-Preserves s id cs zero offset = Preserves-fail _
  output_from-Preserves s id cs (suc fuel) offset =
      search (preserves_rules, i, found_or-Preserves, output_from-Preserves s id cs fuel) depth 20
    where
      found_or-Preserves :
          (onward : Action SiacoinElement) (found : Option SiacoinElement)
          → Preserves I onward
          → Preserves I (found_or onward found)
      found_or-Preserves onward none k = k
      found_or-Preserves onward (some e) k = Preserves-pure _

  find_swap_output-Preserves :
      (s : Swap) (id : ℕ) (cs : ConsensusState) → Preserves I (find_swap_output w s id cs)
  unfolding find_swap_output
  find_swap_output-Preserves s id cs = search (preserves_rules, i, output_from-Preserves) depth 20

  sign_spend-Preserves :
      (side : SpendSide) (cs : ConsensusState) (txn : Transaction) (contract : AtomicSwap)
      (keys : QdayPrivateKeys) (secret : ℕ)
      → Preserves I (sign_spend p w side cs txn contract keys secret)
  sign_spend-Preserves claiming cs txn contract keys secret = search (preserves_rules, i)
  sign_spend-Preserves refunding cs txn contract keys secret = search (preserves_rules, i)

  pub build_spend-Preserves :
      IsAboutSubmissions I
      → (cs : ConsensusState) (side : SpendSide) (id : ℕ) (fee : Currency) (secret : ℕ) (s : Swap)
        (keys : QdayPrivateKeys)
      → Preserves I (build_spend p w cs side id fee secret s keys)
  unfolding build_spend
  build_spend-Preserves j cs side id fee secret s keys =
      let find = find_swap_output-Preserves in
      let create = new_address-Preserves p w i j in
      search (preserves_rules, i, find, create, sign_spend-Preserves) depth 20
