-- ===== src/Daemon/Swap/Listing.antt =====
-- internal/daemon/swap.go: the outputs of a contract, read from the wallet index and the pool.
use Prim.Native.String.{compare}
use Prim.Native.Nat.{Ordering}
use qday_walletd.Common.{
  ℕ, zero, suc, ◌+◌, ◌/◌, String, Bool, true, false, not, Option, none, some, List, [], ◌++◌,
  length, ltb, ◌==◌, if◌then◌else◌,
}
use qday_walletd.Types.{Platform, failure, same_index, map_result}
use qday_walletd.Meta.Tables.{order_by}
use qday_walletd.Meta.Swaps.{Swap}
use qday_walletd.Daemon.Machine.{
  World, Action, Event, pure, fail, lift, ask, ask_result, ◌>>=◌, ◌>>◌, require,
}
use qday_walletd.Daemon.Outputs.{page_size}
use qday_walletd.Daemon.Swap.Worth.{shown_output}
use qday_walletd.Daemon.Swap.Observe.{SwapOutputView, replay_back, replay}

abbrev pub max_events : ℕ
max_events = 10_000

-- `sort.Slice`: outputs without a funding height first, then the highest, then by identifier.
abbrev pub id_before : String → String → Bool
id_before a b = elim (compare a b) [ Ordering.lt ↦ true | _ ↦ false ]

abbrev pub height_before : Option ℕ → Option ℕ → String → String → Bool
height_before none right a b = true
height_before (some h) none a b = false
height_before (some h) (some k) a b = if h == k then id_before a b else ltb k h

abbrev pub listed_before : SwapOutputView → SwapOutputView → Bool
listed_before u v = height_before u.funding_height v.funding_height u.id v.id

module _ (p : Platform) (w : World) (s : Swap) where
  -- The loop over the pages of events; `pages` bounds them as `maxEvents` does.
  unfoldable pub event_pages : ℕ → ℕ → Action (List Event)
  event_pages zero offset = pure []
  event_pages (suc pages) offset = do
    events ← ask_result (λ t. w.address_events t s.address offset page_size)
    let more = event_pages pages (offset + page_size) >>= λ rest. pure (events ++ rest)
    let full = fail (failure "atomic-swap event history exceeds the safety limit")
    if ltb (length events) page_size
        then pure events
        else if offset + page_size == max_events
        then full
        else more

module _ (p : Platform) (w : World) (s : Swap) where
  -- `observedSwapOutputs`
  unfoldable pub observed_swap_outputs : Action (List SwapOutputView)
  unfolding event_pages replay_back replay order_by shown_output
  observed_swap_outputs = do
    cs ← ask w.tip_state
    scan ← ask_result w.wallet_tip
    require (same_index scan cs.index) (failure "wallet index is synchronizing")
    confirmed ← event_pages p w s (max_events / page_size) 0
    let replayed = replay_back p s true confirmed []
    indexed ← ask_result w.wallet_tip
    require (same_index indexed cs.index)
        (failure "chain changed while reading atomic-swap events; retry")
    tip ← ask w.tip
    require (same_index tip cs.index)
        (failure "chain changed while reading atomic-swap events; retry")
    unconfirmed ← ask_result (λ t. w.unconfirmed_events t s.address)
    views ← lift (map_result (shown_output p cs) (replay p s false unconfirmed replayed))
    pure (order_by (λ u v. not (listed_before v u)) views)
