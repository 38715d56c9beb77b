-- ===== src/Daemon/Rebroadcast.antt =====
-- internal/daemon/service.go and swap.go: the loop that follows what was submitted until it is buried.
-- A round does not take the mutex of the service, so the code may run it beside another operation; here
-- it is a sequence of statements and calls of its own.
pub mod Kept
pub mod Fixed
pub mod Buried
mod Tests
use qday_walletd.Common.{
  ℕ, zero, suc, ◌+◌, ◌-◌, min, String, Bool, true, false, ◌&&◌, ◌||◌, Option, none, some, List, [],
  ◌∷◌, map, length, leb, ltb, ◌==◌, if◌then◌else◌,
}
use qday_walletd.Types.{
  Platform, Transaction, ChainIndex, Error, error_text, failure, Result, ok, err, same_index,
}
use qday_walletd.Meta.Tables.{Db}
use qday_walletd.Meta.Withdrawals.{
  Withdrawal, rebroadcast_candidates, set_withdrawal_confirmation, update_withdrawal,
}
use qday_walletd.Meta.Actions.{
  SwapAction, swap_action_rebroadcast_candidates, set_swap_action_confirmation, update_swap_action,
}
use qday_walletd.Daemon.Machine.{
  World, Action, Event, pure, fail, ask, ask_result, query, attempt, ◌>>=◌, ◌>>◌, check_none,
  statement, add_pool,
}
use qday_walletd.Daemon.Chain.{broadcast}
use qday_walletd.Daemon.Wallet.{is_some}
use qday_walletd.Daemon.Withdraw.{on_best, unless_no_peers}

abbrev pub reorg_monitoring_depth : ℕ
reorg_monitoring_depth = 144

-- The step of `updateProofs`, in blocks.
abbrev pub proof_step : ℕ
proof_step = 72

module _ (w : World) where
  known_index : Option ChainIndex → Action ChainIndex
  known_index none = fail (failure "withdrawal is waiting for chain synchronization")
  known_index (some index) = pure index

  known_parent : Option ℕ → Action ℕ
  known_parent none = fail (failure "withdrawal basis is not available")
  known_parent (some id) = pure id

  -- Back from a block that a reorganization dropped, at most so many blocks.
  walk_back : ℕ → ChainIndex → ChainIndex → Action ChainIndex
  unfolding known_parent
  walk_back zero next to = pure next
  walk_back (suc n) next to =
      if next.height == 0 then fail (failure "withdrawal basis is outside this chain") else do
        found ← ask (λ t. w.parent_id t next.id)
        id ← known_parent found
        let before : ChainIndex = record { height = next.height - 1; id = id }
        best ← ask (λ t. w.best_index t (next.height - 1))
        let more = walk_back n before to
        if on_best best before && leb (next.height - 1) to.height then pure before else more

  -- Where the proofs are carried to next.
  next_basis : ChainIndex → ChainIndex → Bool → Action ChainIndex
  unfolding known_index walk_back
  next_basis from to on_chain =
      let forward =
        ask (λ t. w.best_index t (min (from.height + proof_step) to.height)) >>= known_index in
      if on_chain && ltb from.height to.height
      then forward
      else if on_chain && from.height == to.height
      then pure to
      else walk_back proof_step from to

  -- The part of a step that may fail before the proofs are carried on.
  next_step : ChainIndex → ChainIndex → Action ChainIndex
  unfolding next_basis
  next_step from to = do
    check_none (← ask w.cancelled)
    best ← ask (λ t. w.best_index t from.height)
    next_basis from to (on_best best from)

  -- Both results of the code: an error of the update comes with the transactions that it returned.
  carry :
      List Transaction
      → ChainIndex
      → (List Transaction → ChainIndex → Action (List Transaction × Option Error))
      → Result ChainIndex
      → Action (List Transaction × Option Error)
  carry txns from again (err x) = pure ([], some x)
  carry txns from again (ok next) = do
    updated ← ask (λ t. w.update_set t txns from next)
    let more = again updated.0 next
    if is_some updated.1 || length updated.0 == 0 then pure updated else more

  -- `updateProofs`; `fuel` bounds the steps.
  pub update_proofs :
      ℕ → List Transaction → ChainIndex → ChainIndex → Action (List Transaction × Option Error)
  unfolding next_step carry
  update_proofs zero txns from to =
      if same_index from to then pure (txns, none) else pure ([], some (failure "out of fuel"))
  update_proofs (suc fuel) txns from to = if same_index from to then pure (txns, none) else do
    next ← attempt (next_step from to)
    carry txns from (λ ts at. update_proofs fuel ts at to) next

-- What the two loops read and write of a withdrawal or a swap action.
pub record Entry : Type 0 where
  pub transaction : Transaction
  pub basis : ChainIndex
  pub confirmed : Option ChainIndex
  pub set_confirmation : Option ChainIndex → Db → Result Db
  pub update : ChainIndex → Transaction → String → Db → Result Db

-- The transaction, if one is left, and the basis that it then has.
abbrev pub moved_transaction : Entry → List Transaction → Transaction
moved_transaction e (txn ∷ []) = txn
moved_transaction e txns = e.transaction

abbrev pub moved_basis : Entry → ChainIndex → List Transaction → ChainIndex
moved_basis e tip (txn ∷ []) = tip
moved_basis e tip txns = e.basis

abbrev pub last_error : Option Error → String
last_error none = ""
last_error (some e) = error_text e

abbrev pub is_confirmed_at : Option ChainIndex → ChainIndex → Bool
is_confirmed_at none index = false
is_confirmed_at (some confirmed) index = same_index confirmed index

module _ (p : Platform) (w : World) (tip : ChainIndex) where
  announce_added : List Transaction → Result (Unit {0}) → Action (Option Error)
  announce_added txns (err x) = pure (some x)
  announce_added txns (ok u) = do sent ← attempt (broadcast w tip txns); pure (unless_no_peers sent)

  pub submit_proved : List Transaction × Option Error → Action (Option Error)
  unfolding announce_added
  submit_proved (txns, some x) = pure (some x)
  submit_proved (txns, none) = do
    added ← attempt (if length txns == 1 then add_pool w tip txns else pure tt)
    announce_added txns added

  resubmit : Entry → Action (Unit {0})
  unfolding update_proofs submit_proved
  resubmit e = do
    proved ← update_proofs w w.step_bound (e.transaction ∷ []) e.basis tip
    failed ← submit_proved proved
    ignored ← attempt (
        statement w (
          e.update (moved_basis e tip proved.0) (moved_transaction e proved.0) (last_error failed)))
    pure tt

  -- Behind the clearing of an orphaned confirmation.
  resubmit_cleared : Entry → Result (Unit {0}) → Action (Unit {0})
  unfolding resubmit
  resubmit_cleared e (err x) = pure tt
  resubmit_cleared e (ok u) = resubmit e

  follow_unconfirmed : Entry → Option ChainIndex → Action (Unit {0})
  unfolding resubmit resubmit_cleared
  follow_unconfirmed e none = resubmit e
  follow_unconfirmed e (some confirmed) = do
    best ← ask (λ t. w.best_index t confirmed.height)
    let cleared = attempt (statement w (e.set_confirmation none)) >>= resubmit_cleared e
    if on_best best confirmed then pure tt else cleared

  follow_events : Entry → Result (List Event) → Action (Unit {0})
  unfolding follow_unconfirmed
  follow_events e (err x) = pure tt
  follow_events e (ok []) = follow_unconfirmed e e.confirmed
  follow_events e (ok (event ∷ events)) =
      if is_confirmed_at e.confirmed event.index
      then pure tt
      else do ignored ← attempt (statement w (e.set_confirmation (some event.index))); pure tt

  -- One round of either loop.
  unfoldable pub follow : Entry → Action (Unit {0})
  unfolding follow_events
  follow e = do
    events ← attempt (ask_result (λ t. w.events t (p.transaction_id e.transaction)))
    follow_events e events

  follow_all : List Entry → Action (Unit {0})
  follow_all [] = pure tt
  follow_all (e ∷ es) = do follow e; follow_all es

  abbrev pub withdrawal_entry : Withdrawal → Entry
  withdrawal_entry r = record {
    transaction = r.transaction;
    basis = r.basis;
    confirmed = r.confirmed;
    set_confirmation = set_withdrawal_confirmation r.request_id;
    update = update_withdrawal p r.request_id;
  }

  abbrev pub action_entry : SwapAction → Entry
  action_entry a = record {
    transaction = a.transaction;
    basis = a.basis;
    confirmed = a.confirmed;
    set_confirmation = set_swap_action_confirmation a.action_id;
    update = update_swap_action p a.action_id;
  }

  follow_withdrawals : Result (List Withdrawal) → Action (Unit {0})
  unfolding follow_all
  follow_withdrawals (err x) = pure tt
  follow_withdrawals (ok rs) = follow_all (map withdrawal_entry rs)

  follow_actions : Result (List SwapAction) → Action (Unit {0})
  unfolding follow_all
  follow_actions (err x) = pure tt
  follow_actions (ok actions) = follow_all (map action_entry actions)

  -- `rebroadcastSwapActions`
  unfoldable pub rebroadcast_swap_actions : Action (Unit {0})
  unfolding follow_actions
  rebroadcast_swap_actions = do
    actions ←
        attempt (query w (swap_action_rebroadcast_candidates p tip.height reorg_monitoring_depth))
    follow_actions actions

module _ (p : Platform) (w : World) where
  -- `rebroadcast`: the swap actions follow also where the withdrawals cannot be read.
  unfoldable pub rebroadcast : Action (Unit {0})
  unfolding follow_withdrawals
  rebroadcast = do
    tip ← ask w.tip
    rs ← attempt (query w (rebroadcast_candidates p tip.height reorg_monitoring_depth))
    follow_withdrawals p w tip rs
    rebroadcast_swap_actions p w tip
