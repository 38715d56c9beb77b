-- ===== src/Daemon/Withdraw.antt =====
-- internal/daemon/service.go: withdrawals, and what a client sees of them.
pub mod Reading
pub mod Known
pub mod Once
pub mod Journaled
pub mod Shown
pub mod Paid
pub mod Tests
use qday_walletd.Common.{
  ℕ, ◌+◌, ◌-◌, ◌%◌, ◌^◌, String, Bool, true, false, ◌&&◌, Option, none, some, List, [], ◌∷◌, Bytes,
  any, ◌==◌, str_eq, if◌then◌else◌, not,
}
use qday_walletd.Types.{
  Platform, Transaction, ChainIndex, ConsensusState, Currency, Error, error_text, no_peers, Result,
  ok, err, failure, same_index,
}
use qday_walletd.Meta.Withdrawals.{
  Withdrawal, withdrawal, withdrawals, add_withdrawal, update_withdrawal,
}
use qday_walletd.Daemon.Machine.{
  World, Action, Event, wake, pure, fail, lift, ask, ask_result, query, attempt, ◌>>=◌, ◌>>◌,
  require, check_none, statement, emit, add_pool,
}
use qday_walletd.Daemon.Inputs.{valid_request_id, parse_positive_currency, default_fee}
use qday_walletd.Daemon.Chain.{network_synced, broadcast}
use qday_walletd.Daemon.Wallet.{master_seed}
use qday_walletd.Daemon.Transfer.{build_custody_transfer}

pub record Amount : Type 0 where
  pub atomic : String
  pub qday : String

pub record WithdrawalRequest : Type 0 where
  pub request_id : String
  pub destination : String
  pub amount_atomic : String
  pub fee_atomic : String
  pub expected_unit_atomic : String

pub record WithdrawalView : Type 0 where
  pub request_id : String
  pub kind : String
  pub transaction_id : String
  pub destination : String
  pub amount : Amount
  pub fee : Amount
  pub basis : String
  pub status : String
  pub confirmations : ℕ
  pub block_height : Option ℕ
  pub block_id : String
  pub created_at : ℕ
  pub last_error : String

module _ (p : Platform) where
  -- `amount`
  abbrev pub amount : Currency → Currency → Amount
  amount value unit = record { atomic = p.exact_string value; qday = p.format_amount value unit }

  abbrev pub queued_view : Withdrawal → Currency → WithdrawalView
  queued_view r unit = record {
    request_id = r.request_id;
    kind = r.kind;
    transaction_id = p.id_string (p.transaction_id r.transaction);
    destination = p.address_string r.destination;
    amount = amount r.amount unit;
    fee = amount r.fee unit;
    basis = p.index_string r.basis;
    status = "queued";
    confirmations = 0;
    block_height = none;
    block_id = "";
    created_at = r.created_at;
    last_error = r.last_error;
  }

  abbrev pub confirmed_view : ChainIndex → ℕ → WithdrawalView → WithdrawalView
  confirmed_view index confirmations v = record v {
    status = "confirmed";
    confirmations = confirmations;
    block_height = some index.height;
    block_id = p.id_string index.id;
    last_error = "";
  }

  abbrev pub pooled_view : Withdrawal → List Transaction → WithdrawalView → WithdrawalView
  pooled_view r pool v =
      if any (λ t. p.transaction_id t == p.transaction_id r.transaction) pool
      then record v { status = "mempool"; last_error = "" }
      else if str_eq r.last_error ""
      then v
      else record v { status = "retrying" }

-- `best == *confirmed` for an index that the chain knows.
abbrev pub on_best : Option ChainIndex → ChainIndex → Bool
on_best none index = false
on_best (some best) index = same_index best index

-- `1 + cs.Index.Height - confirmed.Height` in 64 bits.
abbrev pub depth : ℕ → ℕ → ℕ
depth tip confirmed = (1 + tip + 2 ^ 64 - confirmed) % 2 ^ 64

-- A broadcast without peers is not an error.
abbrev pub unless_no_peers : Result (Unit {0}) → Option Error
unless_no_peers (ok u) = none
unless_no_peers (err (no_peers s)) = none
unless_no_peers (err e) = some e

abbrev pub new_withdrawal :
    String → ℕ → Currency → Currency → Transaction → ChainIndex → ℕ → Withdrawal
new_withdrawal request_id destination value fee txn basis now = record {
  request_id = request_id;
  kind = "withdrawal";
  transaction = txn;
  basis = basis;
  confirmed = none;
  destination = destination;
  amount = value;
  fee = fee;
  created_at = now;
  last_error = "";
}

module _ (p : Platform) (w : World) where
  unconfirmed_view : Withdrawal → WithdrawalView → Action WithdrawalView
  unconfirmed_view r v = do pool ← ask w.pool; pure (pooled_view p r pool v)

  -- What the chain says of a recorded confirmation.
  recorded_view :
      ConsensusState → Withdrawal → Option ChainIndex → WithdrawalView → Action WithdrawalView
  recorded_view cs r none v = unconfirmed_view r v
  recorded_view cs r (some index) v = do
    best ← ask (λ t. w.best_index t index.height)
    if on_best best index
        then pure (confirmed_view p index (depth cs.index.height index.height) v)
        else unconfirmed_view r v

  event_view : ConsensusState → Withdrawal → WithdrawalView → List Event → Action WithdrawalView
  event_view cs r v (event ∷ events) = pure (confirmed_view p event.index event.confirmations v)
  event_view cs r v [] = recorded_view cs r r.confirmed v

  -- `withdrawalView`
  unfoldable pub withdrawal_view : Withdrawal → Action WithdrawalView
  unfolding event_view recorded_view unconfirmed_view
  withdrawal_view r = do
    cs ← ask w.tip_state
    let v = queued_view p r (p.qday_units cs cs.index.height)
    events ← ask_result (λ t. w.events t (p.transaction_id r.transaction))
    event_view cs r v events

  views : List Withdrawal → Action (List WithdrawalView)
  views [] = pure []
  views (r ∷ rs) = do v ← withdrawal_view r; vs ← views rs; pure (v ∷ vs)

  view_found : Option Withdrawal → Action (Option WithdrawalView)
  view_found none = pure none
  view_found (some r) = do v ← withdrawal_view r; pure (some v)

  -- `Withdrawal`
  unfoldable pub show_withdrawal : String → Action (Option WithdrawalView)
  unfolding view_found
  show_withdrawal request_id = do found ← query w (withdrawal p request_id); view_found found

  -- `Withdrawals`
  unfoldable pub show_withdrawals : ℕ → ℕ → Action (List WithdrawalView)
  unfolding views
  show_withdrawals limit offset = do rs ← query w (withdrawals p limit offset); views rs

  -- The error of a submission is noted, if the journal takes it.
  unfoldable pub note_error : Withdrawal → Option Error → Action Withdrawal
  note_error r none = pure r
  note_error r (some e) = do
    ignored ←
        attempt
          (statement w (update_withdrawal p r.request_id r.basis r.transaction (error_text e)))
    pure (record r { last_error = error_text e })

  unfoldable pub broadcast_added : Withdrawal → Result (Unit {0}) → Action (Option Error)
  broadcast_added r (err e) = pure (some e)
  broadcast_added r (ok u) = do
    sent ← attempt (broadcast w r.basis (r.transaction ∷ []))
    pure (unless_no_peers sent)

  unfoldable pub submit_withdrawal : Withdrawal → Action Withdrawal
  submit_withdrawal r = do
    added ← attempt (add_pool w r.basis (r.transaction ∷ []))
    failed ← broadcast_added r added
    note_error r failed

  -- The part of `CreateWithdrawal` behind the lookup of the request; the flag says "created".
  unfoldable pub withdraw :
      WithdrawalRequest
      → ℕ
      → Currency
      → Currency
      → Option Withdrawal
      → Action (WithdrawalView × Bool)
  withdraw request destination value fee (some existing) = do
    require
        (existing.destination == destination && (existing.amount == value && existing.fee == fee))
        (failure "requestID is already bound to a different withdrawal")
    view ← withdrawal_view existing
    pure (view, false)
  withdraw request destination value fee none = do
    master ← master_seed
    synced ← network_synced w
    require synced (failure "QDAY node has no synchronized peer")
    cs ← ask w.tip_state
    scan ← ask_result w.wallet_tip
    require (same_index scan cs.index) (failure "wallet index is synchronizing")
    let unit = p.exact_string (p.qday_units cs cs.index.height)
    require
        (not (str_eq request.expected_unit_atomic "") && str_eq request.expected_unit_atomic unit)
        (failure "expectedUnitAtomic does not match the active QDAY denomination")
    txn ← build_custody_transfer p w cs master destination value fee
    now ← ask w.now
    let r = new_withdrawal request.request_id destination value fee txn cs.index now
    statement w (add_withdrawal p r)
    submitted ← submit_withdrawal r
    emit wake
    view ← withdrawal_view submitted
    pure (view, true)

  -- `CreateWithdrawal`
  unfoldable pub create_withdrawal : WithdrawalRequest → Action (WithdrawalView × Bool)
  create_withdrawal request = do
    require (valid_request_id request.request_id)
        (failure "requestID must contain 1..128 letters, digits, '.', '_', ':' or '-'")
    destination ← lift (p.parse_address request.destination)
    value ← lift (parse_positive_currency p request.amount_atomic "amountAtomic")
    fee ← lift (default_fee p request.fee_atomic)
    existing ← query w (withdrawal p request.request_id)
    withdraw request destination value fee existing
