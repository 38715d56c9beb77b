-- ===== src/Daemon/Sample.antt =====
-- A node that answers every call, for the tests.
use qday_walletd.Common.{none, some, true, false, [], ◌∷◌, map}
use qday_walletd.Types.{
  ChainIndex, ConsensusState, Transaction, SiacoinInput, AtomicSwap, ok, unsigned, other,
}
use qday_walletd.Meta.Tables.{Db}
use qday_walletd.Daemon.Machine.{World, Daemon, Peer}

abbrev pub tip : ChainIndex
tip = record { height = 20; id = 2020 }

abbrev pub tip_state : ConsensusState
tip_state = record {
  index = tip;
  qday_height = 5;
  shield_blocks = 10;
  defend_bits = 1;
  v1_height = 30;
}

abbrev peer : Peer
peer = record { alive = true; synced = true; inbound = true }

-- Every input is given the number of the hash lock for its policy.
abbrev pub signed_spend : Transaction → AtomicSwap → Transaction
signed_spend txn contract = record txn {
  inputs =
      map
        (λ (i : SiacoinInput). record i {
          satisfied_policy = unsigned (other contract.secret_hash);
        })
        txn.inputs;
}

abbrev pub world : World
world = record {
  db_fault = λ _. none;
  now = λ _. 7_000_000_000;
  cancelled = λ _. none;
  read_key = λ _ password. ok (1 ∷ []);
  tip_state = λ _. tip_state;
  tip = λ _. tip;
  best_index = λ _ height. some (record { height = height; id = 2000 });
  parent_id = λ _ id. none;
  pool = λ _. [];
  add_pool = λ _. none;
  update_set = λ _ txns from to. (txns, none);
  development = true;
  peers = λ _. some (peer ∷ []);
  broadcast = λ _. none;
  wallet_tip = λ _. ok tip;
  unspent = λ _ offset limit. ok ([], tip);
  address_outputs = λ _ address offset limit. ok ([], tip);
  add_addresses = λ _. none;
  events = λ _ id. ok [];
  address_events = λ _ address offset limit. ok [];
  unconfirmed_events = λ _ address. ok [];
  wallet_events = λ _ offset limit. ok [];
  immature_balance = λ _. ok 0;
  sign_claim = λ _ cs txn contract keys secret. ok (signed_spend txn contract);
  sign_refund = λ _ cs txn contract keys. ok (signed_spend txn contract);
  op_held = λ _. false;
  network_name = "qday";
  genesis_id = 1;
  page_bound = 1;
  nonce_bound = 10;
  step_bound = 10;
}

-- A daemon that has just been unlocked, over a journal.
abbrev pub started : Db → Daemon
started db = record { db = db; master = some (1 ∷ []); clock = 0; trace = [] }
