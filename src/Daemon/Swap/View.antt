-- ===== src/Daemon/Swap/View.antt =====
-- internal/daemon/swap.go: what a client sees of a swap.
use qday_walletd.Common.{
  ℕ, String, Bool, not, ◌&&◌, ◌||◌, Option, none, some, List, [], ◌∷◌, any, str_eq, if◌then◌else◌,
}
use qday_walletd.Types.{Platform, failure}
use qday_walletd.Meta.Swaps.{SwapKey, Swap, swap_key, swap, swaps as swap_page}
use qday_walletd.Meta.Actions.{SwapAction, swap_actions}
use qday_walletd.Daemon.Machine.{World, Action, pure, fail, ask, query, ◌>>=◌}
use qday_walletd.Daemon.Swap.Keys.{SwapKeysView, swap_keys_view, hash_text}
use qday_walletd.Daemon.Swap.Action.{SwapActionView, swap_action_view}
use qday_walletd.Daemon.Swap.Observe.{SwapOutputView}
use qday_walletd.Daemon.Swap.Listing.{observed_swap_outputs}

pub record SwapView : Type 0 where
  pub swap_id : String
  pub role : String
  pub status : String
  pub local : SwapKeysView
  pub recipient : SwapKeysView
  pub refund : SwapKeysView
  pub secret_hash : String
  pub refund_height : ℕ
  pub address : String
  pub height : ℕ
  pub outputs : List SwapOutputView
  pub actions : List SwapActionView
  pub created_at : ℕ

abbrev pub is_unconfirmed_fund : SwapActionView → Bool
is_unconfirmed_fund v = str_eq v.kind "fund" && not (str_eq v.status "confirmed")

abbrev pub is_settled : String → Bool
is_settled status = str_eq status "claimed" || str_eq status "refunded"

abbrev pub next_status : String → String → String
next_status status seen =
    if str_eq seen "claiming" || str_eq seen "refunding"
    then seen
    else if str_eq seen "funded"
    then (if str_eq status "waiting" || str_eq status "funding" then "funded" else status)
    else if str_eq seen "funding"
    then (if str_eq status "waiting" then "funding" else status)
    else status

-- The loop over the outputs: a settled one ends it.
unfoldable pub output_status : String → List SwapOutputView → String
output_status status [] = status
output_status status (o ∷ outputs) =
    let rest = output_status (next_status status o.status) outputs in
    if is_settled o.status then o.status else rest

-- `aggregateSwapStatus`
unfoldable pub aggregate_swap_status : List SwapOutputView → List SwapActionView → String
unfolding output_status
aggregate_swap_status outputs actions =
    output_status (if any is_unconfirmed_fund actions then "funding" else "waiting") outputs

abbrev pub known_session : Option SwapKey → Action SwapKey
known_session none = fail (failure "atomic-swap session key is missing")
known_session (some k) = pure k

module _ (p : Platform) (w : World) where
  unfoldable pub action_views : List SwapAction → Action (List SwapActionView)
  action_views [] = pure []
  action_views (a ∷ rest) = do v ← swap_action_view p w a; vs ← action_views rest; pure (v ∷ vs)

  -- `swapView`
  unfoldable pub swap_view : Swap → Action SwapView
  unfolding swap_keys_view aggregate_swap_status action_views
  swap_view s = do
    found ← query w (swap_key p s.swap_id)
    local ← known_session found
    actions ← query w (swap_actions p s.swap_id)
    views ← action_views actions
    outputs ← observed_swap_outputs p w s
    cs ← ask w.tip_state
    pure (record {
      swap_id = s.swap_id;
      role = s.role;
      status = aggregate_swap_status outputs views;
      local = swap_keys_view p local.public;
      recipient = swap_keys_view p s.recipient;
      refund = swap_keys_view p s.refund;
      secret_hash = hash_text s.secret_hash;
      refund_height = s.refund_height;
      address = p.address_string s.address;
      height = cs.index.height;
      outputs = outputs;
      actions = views;
      created_at = s.created_at;
    })

  view_found : Option Swap → Action (Option SwapView)
  view_found none = pure none
  view_found (some s) = do v ← swap_view s; pure (some v)

  -- `Swap`
  unfoldable pub show_swap : String → Action (Option SwapView)
  unfolding view_found
  show_swap swap_id = do found ← query w (swap p swap_id); view_found found

  swap_views : List Swap → Action (List SwapView)
  swap_views [] = pure []
  swap_views (s ∷ ss) = do v ← swap_view s; vs ← swap_views ss; pure (v ∷ vs)

  -- `Swaps`
  unfoldable pub show_swaps : ℕ → ℕ → Action (List SwapView)
  unfolding swap_views
  show_swaps limit offset = do ss ← query w (swap_page p limit offset); swap_views ss
