-- ===== src/Daemon/Defend.antt =====
-- internal/daemon/service.go: the automatic DEFEND, which moves outputs whose shield is about to end.
-- It has no result: where the code returns early, with or without a line in the log, it fails here.
pub mod Journaled
pub mod Conserved
mod Tests
use qday_walletd.Common.{
  ℕ, ◌+◌, ◌/◌, ◌%◌, ◌^◌, max, String, str_append, Bool, not, Option, none, some, List, [], ◌∷◌,
  ◌++◌, map, length, ltb, leb, ◌==◌, if◌then◌else◌,
}
use qday_walletd.Types.{
  Platform, Transaction, SiacoinElement, ChainIndex, ConsensusState, Currency, Result, ok, err,
  failure, same_index, add, sub,
}
use qday_walletd.Meta.Tables.{order_by}
use qday_walletd.Meta.Addresses.{address_by_hash}
use qday_walletd.Meta.Withdrawals.{Withdrawal, withdrawal, add_withdrawal, update_withdrawal}
use qday_walletd.Daemon.Machine.{
  World, Action, pure, fail, lift, gets, ask, ask_result, query, attempt, ◌>>=◌, ◌>>◌, require,
  check_none, statement, add_pool,
}
use qday_walletd.Daemon.Inputs.{standard_fee}
use qday_walletd.Daemon.Chain.{network_synced}
use qday_walletd.Daemon.Outputs.{spend_value, spendable_outputs}
use qday_walletd.Daemon.Wallet.{unlocked, master_seed, new_address}
use qday_walletd.Daemon.Transfer.{
  Coin, coin_input, known_owner, max_inputs, perform_defend_work, sign_inputs,
}
use qday_walletd.Daemon.Withdraw.{broadcast_added}
use qday_walletd.Daemon.Rebroadcast.{last_error}

module _ (cs : ConsensusState) where
  -- The height at which the shield of an output ends, in 64 bits.
  abbrev pub expiry : SiacoinElement → ℕ
  expiry output = (max output.maturity_height cs.qday_height + cs.shield_blocks) % 2 ^ 64

  abbrev pub threshold : ℕ
  threshold = max 2 (cs.shield_blocks / 4)

  abbrev pub is_near : SiacoinElement → Bool
  is_near output = not (ltb ((cs.index.height + threshold) % 2 ^ 64) (expiry output))

  -- `sort.Slice`: the first to expire first. Equal ones are left in their order here.
  abbrev pub sooner_first : SiacoinElement → SiacoinElement → Bool
  sooner_first a b = leb (expiry a) (expiry b)

module _ (p : Platform) (w : World) (cs : ConsensusState) where
  -- The loop over the sorted outputs, up to the limit.
  unfoldable pub select : List SiacoinElement → List Coin → Currency → Action (List Coin × Currency)
  select [] coins total = pure (coins, total)
  select (output ∷ outputs) coins total =
      let onward = select outputs coins total in
      let taken = query w (address_by_hash p output.output.address) >>= known_owner >>= λ owner.
      lift (add total (spend_value p cs output)) >>= λ sum.
      let chosen = coins ++ record { element = output; owner = owner } ∷ [] in
      let more = select outputs chosen sum in
      if length chosen == max_inputs then pure (chosen, sum) else more in
      if is_near cs output then taken else onward

  abbrev pub defend_transaction : ℕ → Currency → Currency → List Coin → Transaction
  defend_transaction destination value fee coins = record {
    inputs = map (coin_input p cs) coins;
    outputs = record { value = value; address = destination } ∷ [];
    miner_fee = fee;
    arbitrary_data = p.transfer_envelope 0;
  }

  abbrev pub defend_record : ℕ → Currency → Currency → Transaction → ℕ → Withdrawal
  defend_record destination value fee txn now = record {
    request_id = str_append "defend:" (p.id_string (p.transaction_id txn));
    kind = "defend";
    transaction = txn;
    basis = cs.index;
    confirmed = none;
    destination = destination;
    amount = value;
    fee = fee;
    created_at = now;
    last_error = "";
  }

  -- The transaction, its destination and its value.
  unfoldable pub build_defend : Action (Transaction × (ℕ × Currency))
  build_defend = do
    master ← master_seed
    outputs ← spendable_outputs p w cs
    chosen ← select (order_by (sooner_first cs) outputs) [] 0
    require (not (length chosen.0 == 0)) (failure "nothing to defend")
    require (ltb (standard_fee p) chosen.1)
        (failure "outputs requiring DEFEND cannot pay the transaction fee")
    destination ← new_address p w "" "change"
    paid ← lift (sub chosen.1 (standard_fee p))
    worked ←
        perform_defend_work p w cs
          (defend_transaction destination.address paid (standard_fee p) chosen.0)
    txn ← sign_inputs p w cs master (map (λ c. c.owner) chosen.0) worked
    tip ← ask w.tip
    require (same_index tip cs.index) (failure "chain changed while signing; retry")
    check_none (p.validate cs txn)
    pure (txn, (destination.address, paid))

module _ (p : Platform) (w : World) where
  -- Behind `AddWithdrawal`; the lookup of a record that was refused only decides on a line in the log.
  unfoldable pub submit_defend : Withdrawal → Result (Unit {0}) → Action (Unit {0})
  submit_defend r (err e) = do known ← attempt (query w (withdrawal p r.request_id)); fail e
  submit_defend r (ok u) = do
    added ← attempt (add_pool w r.basis (r.transaction ∷ []))
    failed ← broadcast_added p w r added
    ignored ←
        attempt
          (statement w (update_withdrawal p r.request_id r.basis r.transaction (last_error failed)))
    pure tt

  -- `autoDefend`
  unfoldable pub auto_defend : Action (Unit {0})
  auto_defend = do
    opened ← gets unlocked
    require opened (failure "wallet is locked")
    synced ← network_synced w
    require synced (failure "QDAY node has no synchronized peer")
    held ← ask w.op_held
    require (not held) (failure "another operation runs")
    cs ← ask w.tip_state
    require (p.qday_active cs (cs.index.height + 1)) (failure "QDAY is not active")
    scan ← ask_result w.wallet_tip
    require (same_index scan cs.index) (failure "wallet index is synchronizing")
    built ← build_defend p w cs
    now ← ask w.now
    let r = defend_record p w cs built.1.0 built.1.1 (standard_fee p) built.0 now
    stored ← attempt (statement w (add_withdrawal p r))
    submit_defend r stored
