-- ===== src/Daemon/Swap/Register.antt =====
-- internal/daemon/swap.go: the registration of a contract.
use qday_walletd.Common.{
  ℕ, String, Bool, true, false, ◌&&◌, ◌||◌, Option, none, some, ◌==◌, str_eq, if◌then◌else◌,
}
use qday_walletd.Types.{Platform, QdayKeys, failure, same_keys}
use qday_walletd.Meta.Swaps.{SwapKey, Swap, swap_contract, swap_key, swap, add_swap}
use qday_walletd.Daemon.Machine.{
  World, Action, swaps, pure, fail, lift, ask, query, ◌>>=◌, ◌>>◌, require, statement,
  add_addresses,
}
use qday_walletd.Daemon.Inputs.{valid_request_id}
use qday_walletd.Daemon.Swap.Keys.{SwapKeysView, parse_swap_keys, parse_hash}
use qday_walletd.Daemon.Swap.View.{SwapView, swap_view}

pub record RegisterSwapRequest : Type 0 where
  pub swap_id : String
  pub role : String
  pub counterparty : SwapKeysView
  pub secret_hash : String
  pub refund_height : ℕ

-- `sameSwap`
abbrev pub same_swap : Swap → Swap → Bool
same_swap a b =
    str_eq a.swap_id b.swap_id
    && str_eq a.role b.role
    && same_keys a.recipient b.recipient
    && same_keys a.refund b.refund
    && a.secret_hash == b.secret_hash
    && a.refund_height == b.refund_height
    && a.address == b.address

-- The record before its address is known: our keys stand in the place of our role.
abbrev pub requested_swap : RegisterSwapRequest → QdayKeys → QdayKeys → ℕ → ℕ → Swap
requested_swap request local counterparty secret_hash now =
    let ours = str_eq request.role "recipient" in
    record {
      swap_id = request.swap_id;
      role = request.role;
      recipient = if ours then local else counterparty;
      refund = if ours then counterparty else local;
      secret_hash = secret_hash;
      refund_height = request.refund_height;
      address = 0;
      created_at = now;
    }

abbrev pub known_session : Option SwapKey → Action SwapKey
known_session none = fail (failure "create the swap session keys before registering the contract")
known_session (some k) = pure k

module _ (p : Platform) (w : World) where
  -- `registerSwap`
  unfoldable pub watch_swap : Swap → Action (Unit {0})
  watch_swap s = do
    policy ← lift (p.contract_policy (swap_contract s))
    add_addresses w swaps (p.policy_address policy) s.swap_id

  -- The part of `RegisterSwap` behind the lookup of the contract; the flag says "created".
  unfoldable pub bind_swap : Swap → Option Swap → Action (SwapView × Bool)
  bind_swap s (some existing) = do
    require (same_swap existing s) (failure "swapID is already bound to a different contract")
    watch_swap existing
    view ← swap_view p w existing
    pure (view, false)
  bind_swap s none = do
    statement w (add_swap p s)
    watch_swap s
    view ← swap_view p w s
    pure (view, true)

  -- `RegisterSwap`
  unfoldable pub register_swap : RegisterSwapRequest → Action (SwapView × Bool)
  register_swap request = do
    require (valid_request_id request.swap_id)
        (failure "swapID must contain 1..128 letters, digits, '.', '_', ':' or '-'")
    require (str_eq request.role "recipient" || str_eq request.role "refund")
        (failure "role must be 'recipient' or 'refund'")
    counterparty ← lift (parse_swap_keys p "counterparty" request.counterparty)
    secret_hash ← lift (parse_hash "secretHash" request.secret_hash)
    session ← query w (swap_key p request.swap_id)
    local ← known_session session
    now ← ask w.now
    let s = requested_swap request local.public counterparty secret_hash now
    address ← lift (p.contract_address (swap_contract s))
    existing ← query w (swap p request.swap_id)
    bind_swap (record s { address = address }) existing
