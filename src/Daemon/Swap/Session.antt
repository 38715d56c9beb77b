-- ===== src/Daemon/Swap/Session.antt =====
-- internal/daemon/swap.go: the session keys of a swap.
use qday_walletd.Common.{ℕ, String, Bool, true, false, Option, none, some}
use qday_walletd.Types.{Platform, failure}
use qday_walletd.Derive.{swap_keys}
use qday_walletd.Meta.Swaps.{SwapKey, swap_key, add_swap_key}
use qday_walletd.Daemon.Machine.{
  World, Action, pure, lift, ask, query, ◌>>=◌, ◌>>◌, require, statement,
}
use qday_walletd.Daemon.Inputs.{valid_request_id}
use qday_walletd.Daemon.Wallet.{master_seed}
use qday_walletd.Daemon.Swap.Keys.{SwapKeysView, swap_keys_view}

pub record SwapKeyView : Type 0 where
  pub swap_id : String
  pub keys : SwapKeysView
  pub created_at : ℕ

module _ (p : Platform) where
  abbrev pub session_view : SwapKey → SwapKeyView
  unfolding swap_keys_view
  session_view k = record {
    swap_id = k.swap_id;
    keys = swap_keys_view p k.public;
    created_at = k.created_at;
  }

module _ (p : Platform) (w : World) where
  -- The part of `CreateSwapKeys` behind the lookup of the session; the flag says "created".
  unfoldable pub session_keys : String → Option SwapKey → Action (SwapKeyView × Bool)
  session_keys swap_id (some existing) = pure (session_view p existing, false)
  session_keys swap_id none = do
    master ← master_seed
    pair ← lift (swap_keys p master swap_id)
    now ← ask w.now
    let k : SwapKey = record { swap_id = swap_id; public = pair.public; created_at = now }
    statement w (add_swap_key p k)
    pure (session_view p k, true)

  -- `CreateSwapKeys`
  unfoldable pub create_swap_keys : String → Action (SwapKeyView × Bool)
  create_swap_keys swap_id = do
    require (valid_request_id swap_id)
        (failure "swapID must contain 1..128 letters, digits, '.', '_', ':' or '-'")
    existing ← query w (swap_key p swap_id)
    session_keys swap_id existing
