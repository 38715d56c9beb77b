-- ===== src/Daemon/Balance.antt =====
-- internal/daemon/service.go: the balance of the custody wallet, and the status of the service.
use qday_walletd.Common.{
  ℕ, suc, String, Bool, true, false, not, ◌&&◌, ◌||◌, Option, none, some, List, [], ◌∷◌, length,
  ltb, ◌==◌, if◌then◌else◌,
}
use qday_walletd.Types.{
  Platform, Transaction, SiacoinElement, SiacoinOutput, ConsensusState, Currency, Result, ok,
  same_index, add,
}
use qday_walletd.Meta.Addresses.{address_by_hash, address_count}
use qday_walletd.Daemon.Machine.{
  World, Action, Peer, pure, lift, gets, ask, ask_result, query, ◌>>=◌,
}
use qday_walletd.Daemon.Chain.{network_synced}
use qday_walletd.Daemon.Outputs.{is_spent, spendable_outputs}
use qday_walletd.Daemon.Wallet.{is_some, unlocked}
use qday_walletd.Daemon.Withdraw.{Amount, amount}
use qday_walletd.Daemon.Defend.{expiry}

pub record Balance : Type 0 where
  pub height : ℕ
  pub synced : Bool
  pub unit_atomic : String
  pub spendable : Amount
  pub immature : Amount
  pub pending_in : Amount
  pub output_count : ℕ
  pub shield_until : ℕ

abbrev pub no_amount : Amount
no_amount = record { atomic = ""; qday = "" }

-- The first end of a shield; 0 stands for none.
abbrev pub earliest : ℕ → ℕ → ℕ
earliest until end = if until == 0 || ltb end until then end else until

module _ (p : Platform) (cs : ConsensusState) where
  unfoldable pub sum_outputs : List SiacoinElement → Currency → Action Currency
  sum_outputs [] total = pure total
  sum_outputs (output ∷ outputs) total = do
    sum ← lift (add total (p.qday_value cs output cs.index.height))
    sum_outputs outputs sum

  unfoldable pub shield_end : List SiacoinElement → ℕ → ℕ
  shield_end [] until = until
  shield_end (output ∷ outputs) until =
      shield_end outputs (if cs.qday_height == 0 then until else earliest until (expiry cs output))

module _ (p : Platform) (w : World) where
  -- The short-circuit of `index == cs.Index && s.node.NetworkSynced()`.
  unfoldable pub synced_too : Bool → Action Bool
  synced_too false = pure false
  synced_too true = network_synced w

  -- The outputs of one transaction of the pool that come to the wallet and stay there.
  unfoldable pub pending_outputs :
      List Transaction → ℕ → ℕ → List SiacoinOutput → Currency → Action Currency
  pending_outputs pool id i [] total = pure total
  pending_outputs pool id i (output ∷ outputs) total = do
    owner ← query w (address_by_hash p output.address)
    sum ← lift (
        if is_some owner && not (is_spent pool (p.output_id id i))
        then add total output.value
        else ok total)
    pending_outputs pool id (suc i) outputs sum

  unfoldable pub pending_in : List Transaction → List Transaction → Currency → Action Currency
  pending_in pool [] total = pure total
  pending_in pool (txn ∷ txns) total = do
    sum ← pending_outputs pool (p.transaction_id txn) 0 txn.outputs total
    pending_in pool txns sum

  full_balance : ConsensusState → Bool → Action Balance
  full_balance cs synced = do
    let unit = p.qday_units cs cs.index.height
    outputs ← spendable_outputs p w cs
    spendable ← sum_outputs p cs outputs 0
    immature ← ask_result w.immature_balance
    pool ← ask w.pool
    pending ← pending_in pool pool 0
    pure (record {
      height = cs.index.height;
      synced = synced;
      unit_atomic = p.exact_string unit;
      spendable = amount p spendable unit;
      immature = amount p immature unit;
      pending_in = amount p pending unit;
      output_count = length outputs;
      shield_until = shield_end p cs outputs 0;
    })

  abbrev pub bare_balance : ConsensusState → Bool → Balance
  bare_balance cs synced = record {
    height = cs.index.height;
    synced = synced;
    unit_atomic = p.exact_string (p.qday_units cs cs.index.height);
    spendable = no_amount;
    immature = no_amount;
    pending_in = no_amount;
    output_count = 0;
    shield_until = 0;
  }

  -- `Balance`
  unfoldable pub balance : Action Balance
  unfolding full_balance
  balance = do
    cs ← ask w.tip_state
    index ← ask_result w.wallet_tip
    synced ← synced_too (same_index index cs.index)
    if same_index index cs.index then full_balance cs synced else pure (bare_balance cs synced)

-- What `Status` puts into its map.
pub record Status : Type 0 where
  pub network : String
  pub genesis : ℕ
  pub height : ℕ
  pub scan_height : ℕ
  pub synced : Bool
  pub network_synced : Bool
  pub connections : ℕ
  pub inbound_connections : ℕ
  pub mempool_transactions : ℕ
  pub unlocked : Bool
  pub addresses : ℕ
  pub unit_atomic : String
  pub qday_height : ℕ
  pub pq_day : Bool

-- The peers without an error, and those of them that are inbound.
abbrev pub connections : List Peer → ℕ × ℕ
connections [] = (0, 0)
connections (peer ∷ peers) =
    let (all, inbound) = connections peers in
    if peer.alive then (suc all, if peer.inbound then suc inbound else inbound) else (all, inbound)

abbrev pub connections_of : Option (List Peer) → ℕ × ℕ
connections_of none = (0, 0)
connections_of (some peers) = connections peers

module _ (p : Platform) (w : World) where
  -- `Status`
  unfoldable pub status : Action Status
  status = do
    cs ← ask w.tip_state
    scan ← ask_result w.wallet_tip
    peers ← ask w.peers
    addresses ← query w (λ db. Result.ok (address_count db))
    synced ← synced_too p w (same_index scan cs.index)
    in_touch ← network_synced w
    pool ← ask w.pool
    opened ← gets unlocked
    pure (record {
      network = w.network_name;
      genesis = w.genesis_id;
      height = cs.index.height;
      scan_height = scan.height;
      synced = synced;
      network_synced = in_touch;
      connections = (connections_of peers).0;
      inbound_connections = (connections_of peers).1;
      mempool_transactions = length pool;
      unlocked = opened;
      addresses = addresses;
      unit_atomic = p.exact_string (p.qday_units cs cs.index.height);
      qday_height = cs.qday_height;
      pq_day = p.qday_active cs cs.index.height;
    })
