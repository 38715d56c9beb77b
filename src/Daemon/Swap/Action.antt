-- ===== src/Daemon/Swap/Action.antt =====
-- internal/daemon/swap.go: what is submitted for a swap, and what a client sees of it.
use qday_walletd.Common.{
  ℕ, String, Option, none, some, List, [], ◌∷◌, any, ◌==◌, str_eq, if◌then◌else◌,
}
use qday_walletd.Types.{Platform, Transaction, Currency, Error, error_text, Result, ok, err}
use qday_walletd.Meta.Actions.{SwapAction, update_swap_action}
use qday_walletd.Daemon.Machine.{
  World, Action, Event, wake, pure, ask, ask_result, attempt, ◌>>=◌, ◌>>◌, statement, emit,
  add_pool,
}
use qday_walletd.Daemon.Chain.{broadcast}
use qday_walletd.Daemon.Withdraw.{Amount, amount, unless_no_peers}

pub record SwapActionView : Type 0 where
  pub action_id : String
  pub kind : String
  pub output_id : String
  pub transaction_id : String
  pub destination : String
  pub amount : Amount
  pub fee : Amount
  pub basis : String
  pub status : String
  pub confirmations : ℕ
  pub block_height : Option ℕ
  pub block_id : String
  pub created_at : ℕ
  pub last_error : String

-- The error that is left of a submission: the earlier one, unless there is a new one.
abbrev pub error_after : String → Option Error → String
error_after earlier none = earlier
error_after earlier (some e) = error_text e

module _ (p : Platform) where
  abbrev pub queued_action_view : SwapAction → Currency → SwapActionView
  queued_action_view a unit = record {
    action_id = a.action_id;
    kind = a.kind;
    output_id = a.output_id;
    transaction_id = p.id_string (p.transaction_id a.transaction);
    destination = p.address_string a.destination;
    amount = amount p a.amount unit;
    fee = amount p a.fee unit;
    basis = p.index_string a.basis;
    status = "queued";
    confirmations = 0;
    block_height = none;
    block_id = "";
    created_at = a.created_at;
    last_error = a.last_error;
  }

  abbrev pub confirmed_action_view : Event → SwapActionView → SwapActionView
  confirmed_action_view event v = record v {
    status = "confirmed";
    confirmations = event.confirmations;
    block_height = some event.index.height;
    block_id = p.id_string event.index.id;
    last_error = "";
  }

  abbrev pub pooled_action_view : SwapAction → List Transaction → SwapActionView → SwapActionView
  pooled_action_view a pool v =
      if any (λ t. p.transaction_id t == p.transaction_id a.transaction) pool
      then record v { status = "mempool"; last_error = "" }
      else if str_eq a.last_error ""
      then v
      else record v { status = "retrying" }

module _ (p : Platform) (w : World) where
  unfoldable pub action_event_view :
      SwapAction → SwapActionView → List Event → Action SwapActionView
  action_event_view a v (event ∷ events) = pure (confirmed_action_view p event v)
  action_event_view a v [] = do pool ← ask w.pool; pure (pooled_action_view p a pool v)

  -- `swapActionView`
  unfoldable pub swap_action_view : SwapAction → Action SwapActionView
  unfolding action_event_view
  swap_action_view a = do
    cs ← ask w.tip_state
    let v = queued_action_view p a (p.qday_units cs cs.index.height)
    events ← ask_result (λ t. w.events t (p.transaction_id a.transaction))
    action_event_view a v events

  unfoldable pub broadcast_action : SwapAction → Result (Unit {0}) → Action (Option Error)
  broadcast_action a (err e) = pure (some e)
  broadcast_action a (ok u) = do
    sent ← attempt (broadcast w a.basis (a.transaction ∷ []))
    pure (unless_no_peers sent)

  -- `submitSwapAction`: the journal is updated, if it takes the update, and the loop is woken.
  unfoldable pub submit_swap_action : SwapAction → Action SwapAction
  submit_swap_action a = do
    added ← attempt (add_pool w a.basis (a.transaction ∷ []))
    failed ← broadcast_action a added
    let last_error = error_after a.last_error failed
    ignored ←
        attempt (statement w (update_swap_action p a.action_id a.basis a.transaction last_error))
    emit wake
    pure (record a { last_error = last_error })
