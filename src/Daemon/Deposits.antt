-- ===== src/Daemon/Deposits.antt =====
-- internal/daemon/service.go: the deposits, read from the events of the custody wallet.
pub mod Meaning
pub mod Lookups
pub mod Refined
mod Tests
use qday_walletd.Common.{
  ℕ, zero, suc, ◌+◌, ◌*◌, min, String, str_append, decimal, Bool, true, false, not, ◌&&◌, ◌||◌,
  Option, none, some, List, [], ◌∷◌, ◌++◌, length, ltb, leb, ◌==◌, str_eq, if◌then◌else◌,
}
use qday_walletd.Types.{
  Platform, Transaction, SiacoinInput, SiacoinOutput, ConsensusState, Currency, failure, same_index,
}
use qday_walletd.Meta.Addresses.{Address, address_by_hash}
use qday_walletd.Daemon.Machine.{
  World, Action, Event, EventData, transaction_data, payout_data, other_data, pure, fail, ask,
  ask_result, query, ◌>>=◌, ◌>>◌, require,
}
use qday_walletd.Daemon.Outputs.{page_size}
use qday_walletd.Daemon.Wallet.{is_some}
use qday_walletd.Daemon.Withdraw.{Amount, amount}

pub record Deposit : Type 0 where
  pub id : String
  pub kind : String
  pub event_id : String
  pub transaction_id : String
  pub output_index : Option ℕ
  pub address : String
  pub reference : String
  pub amount : Amount
  pub block_height : ℕ
  pub block_id : String
  pub confirmations : ℕ
  pub maturity_height : ℕ
  pub timestamp : ℕ
  pub creditable : Bool

-- How many events are read at once.
abbrev pub event_limit : ℕ → ℕ
event_limit limit = min page_size (limit * 2)

module _ (p : Platform) (cs : ConsensusState) (event : Event) where
  -- A deposit of the event: its identifier, transaction and place, the address, and the value.
  abbrev pub deposit : String → String → Option ℕ → Address → Currency → Bool → Deposit
  deposit id transaction_id place owner value creditable = record {
    id = id;
    kind = event.kind;
    event_id = p.id_string event.id;
    transaction_id = transaction_id;
    output_index = place;
    address = p.address_string owner.address;
    reference = owner.reference;
    amount = amount p value (p.qday_units cs event.index.height);
    block_height = event.index.height;
    block_id = p.id_string event.index.id;
    confirmations = event.confirmations;
    maturity_height = event.maturity_height;
    timestamp = event.timestamp;
    creditable = creditable;
  }

  -- An output to an address that was handed out for deposits.
  abbrev pub deposit_to :
      String → String → Option ℕ → Option Address → Currency → Bool → List Deposit
  deposit_to id transaction_id place none value creditable = []
  deposit_to id transaction_id place (some owner) value creditable =
      if str_eq owner.kind "deposit"
      then deposit id transaction_id place owner value creditable ∷ []
      else []

  -- The identifier of a deposit in a transaction: `fmt.Sprintf("%s:%d", id, i)`.
  abbrev pub place_id : Transaction → ℕ → String
  unfolding decimal
  place_id txn i = str_append (p.id_string (p.transaction_id txn)) (str_append ":" (decimal i))

module _ (p : Platform) (w : World) where
  -- Whether an input spends an output of the wallet.
  unfoldable pub is_internal : List SiacoinInput → Action Bool
  is_internal [] = pure false
  is_internal (input ∷ inputs) = do
    owner ← query w (address_by_hash p input.parent.output.address)
    let more = is_internal inputs
    if is_some owner then pure true else more

  unfoldable pub output_deposits :
      ConsensusState → Event → Transaction → Bool → ℕ → List SiacoinOutput → Action (List Deposit)
  output_deposits cs event txn internal i [] = pure []
  output_deposits cs event txn internal i (output ∷ outputs) = do
    owner ← query w (address_by_hash p output.address)
    let found =
        deposit_to p cs event (place_id p cs event txn i) (p.id_string (p.transaction_id txn))
          (some i) owner output.value (not internal)
    rest ← output_deposits cs event txn internal (suc i) outputs
    pure (found ++ rest)

  unfoldable pub content_deposits : ConsensusState → Event → EventData → Action (List Deposit)
  content_deposits cs event (transaction_data txn) = do
    internal ← is_internal txn.inputs
    output_deposits cs event txn internal 0 txn.outputs
  content_deposits cs event (payout_data element) = do
    owner ← query w (address_by_hash p element.output.address)
    pure (deposit_to p cs event (p.id_string event.id) "" none owner element.output.value true)
  content_deposits cs event other_data = pure []

  -- The deposits of one event.
  unfoldable pub event_deposits : ConsensusState → Event → Action (List Deposit)
  event_deposits cs event = content_deposits cs event event.content

  -- The loop over one page of events: it counts them, and stops once there are enough deposits.
  unfoldable pub take_events :
      ConsensusState → ℕ → List Event → List Deposit → ℕ → Action (List Deposit × ℕ)
  take_events cs limit [] found offset = pure (found, offset)
  take_events cs limit (event ∷ events) found offset = do
    new ← event_deposits cs event
    let more = take_events cs limit events (found ++ new) (offset + 1)
    if leb limit (length (found ++ new)) then pure (found ++ new, offset + 1) else more

  -- The loop over the pages; `fuel` bounds the pages that are read.
  unfoldable pub deposit_pages :
      ConsensusState → ℕ → ℕ → List Deposit → ℕ → Action (List Deposit × ℕ)
  deposit_pages cs limit zero found offset = fail (failure "out of fuel")
  deposit_pages cs limit (suc fuel) found offset = do
    let read = do
      events ← ask_result (λ t. w.wallet_events t offset (event_limit limit))
      after ← take_events cs limit events found offset
      let more = deposit_pages cs limit fuel after.0 after.1
      if length events == 0 || ltb (length events) (event_limit limit) then pure after else more
    if ltb (length found) limit then read else pure (found, offset)

  -- `Deposits`
  unfoldable pub deposits : ℕ → ℕ → Action (List Deposit × ℕ)
  deposits limit event_offset = do
    require (leb 1 limit && leb limit 200)
        (failure "limit must be 1..200 and offset must be nonnegative")
    cs ← ask w.tip_state
    scan ← ask_result w.wallet_tip
    require (same_index scan cs.index) (failure "wallet index is synchronizing")
    found ← deposit_pages cs limit (suc w.page_bound) [] event_offset
    end ← ask_result w.wallet_tip
    require (same_index end scan) (failure "chain changed while reading deposits; retry")
    tip ← ask w.tip
    require (same_index tip cs.index) (failure "chain changed while reading deposits; retry")
    pure found
