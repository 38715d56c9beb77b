-- ===== src/Daemon/Machine.antt =====
-- What an operation of internal/daemon runs on: the service's own state, and the node around it.
-- Every call of the chain manager, the wallet index, the peers, the clock or the disk is answered by
-- a `World`, which may answer each call differently: the n-th call is answered for time n. So the
-- chain may move between any two calls. Operations that hold the mutex `op` are one action; `op_held`
-- answers an attempt to take it.
use qday_walletd.Common.{ℕ, suc, String, Bool, true, false, Option, none, some, List, ◌∷◌, Bytes}
use qday_walletd.Types.{
  Error, Result, ok, err, ChainIndex, ConsensusState, Transaction, SiacoinElement, Currency,
  AtomicSwap, QdayPrivateKeys,
}
use qday_walletd.Meta.Tables.{Db}

-- The two partitions of the wallet index.
pub data Partition : Type 0 where
  custody swaps : Partition

-- A peer of the syncer: `Err() == nil`, `Synced()` and `Inbound`.
pub record Peer : Type 0 where
  pub alive : Bool
  pub synced : Bool
  pub inbound : Bool

-- `Event.Data`, with the kinds that the service tells apart.
pub data EventData : Type 0 where
  transaction_data : Transaction → EventData
  payout_data : SiacoinElement → EventData
  other_data : EventData

-- `wallet.Event`, as far as the service reads it; `kind` is its `Type`.
pub record Event : Type 0 where
  pub id : ℕ
  pub kind : String
  pub index : ChainIndex
  pub confirmations : ℕ
  pub maturity_height : ℕ
  pub timestamp : ℕ
  pub content : EventData

-- What a call leaves outside the service. A submission is noted with the tables as they stood on disk
-- when it was made.
pub data Effect : Type 0 where
  watch : Partition → ℕ → String → Effect
  submit : Db → ChainIndex → List Transaction → Effect
  announce : ChainIndex → List Transaction → Effect
  wake : Effect

-- The last three fields bound loops that read pages until one is not full, try nonces until one is
-- good, and carry a transaction from block to block until it is at the tip.
pub record World : Type 0 where
  pub db_fault : ℕ → Option Error
  pub now : ℕ → ℕ
  pub cancelled : ℕ → Option Error
  pub read_key : ℕ → String → Result Bytes
  pub tip_state : ℕ → ConsensusState
  pub tip : ℕ → ChainIndex
  pub best_index : ℕ → ℕ → Option ChainIndex
  pub parent_id : ℕ → ℕ → Option ℕ
  pub pool : ℕ → List Transaction
  pub add_pool : ℕ → Option Error
  pub update_set : ℕ → List Transaction → ChainIndex → ChainIndex → List Transaction × Option Error
  pub development : Bool
  pub peers : ℕ → Option (List Peer)
  pub broadcast : ℕ → Option Error
  pub wallet_tip : ℕ → Result ChainIndex
  pub unspent : ℕ → ℕ → ℕ → Result (List SiacoinElement × ChainIndex)
  pub address_outputs : ℕ → ℕ → ℕ → ℕ → Result (List SiacoinElement × ChainIndex)
  pub add_addresses : ℕ → Option Error
  pub events : ℕ → ℕ → Result (List Event)
  pub address_events : ℕ → ℕ → ℕ → ℕ → Result (List Event)
  pub unconfirmed_events : ℕ → ℕ → Result (List Event)
  pub wallet_events : ℕ → ℕ → ℕ → Result (List Event)
  pub immature_balance : ℕ → Result Currency
  pub sign_claim :
      ℕ → ConsensusState → Transaction → AtomicSwap → QdayPrivateKeys → ℕ → Result Transaction
  pub sign_refund :
      ℕ → ConsensusState → Transaction → AtomicSwap → QdayPrivateKeys → Result Transaction
  pub op_held : ℕ → Bool
  pub network_name : String
  pub genesis_id : ℕ
  pub page_bound : ℕ
  pub nonce_bound : ℕ
  pub step_bound : ℕ

-- `Service`: the journal, the master seed while unlocked, the calls made so far, and what they left.
pub record Daemon : Type 0 where
  pub db : Db
  pub master : Option Bytes
  pub clock : ℕ
  pub trace : List Effect

abbrev pub Action : Type 0 → Type 0
Action A = Daemon → Result A × Daemon

abbrev pub tick : Daemon → Daemon
tick s = record s { clock = suc s.clock }

module _ {A : Type 0} where
  -- A failure of the driver or the disk stands before the result.
  abbrev pub unless_fault : Option Error → Result A → Result A
  unless_fault none r = r
  unless_fault (some e) r = err e

  unfoldable pub pure : A → Action A
  pure a s = (ok a, s)

  unfoldable pub fail : Error → Action A
  fail e s = (err e, s)

  unfoldable pub lift : Result A → Action A
  lift r s = (r, s)

  unfoldable pub gets : (Daemon → A) → Action A
  gets f s = (ok (f s), s)

  -- One call that is answered, and one that may fail.
  unfoldable pub ask : (ℕ → A) → Action A
  ask f s = (ok (f s.clock), tick s)

  unfoldable pub ask_result : (ℕ → Result A) → Action A
  ask_result f s = (f s.clock, tick s)

  -- A query: it fails if the disk does, and changes nothing.
  unfoldable pub query : World → (Db → Result A) → Action A
  query w f s = (unless_fault (w.db_fault s.clock) (f s.db), tick s)

  -- The error of an action as a value, for the callers that look at it.
  unfoldable pub attempt : Action A → Action (Result A)
  attempt m s = let (r, s') = m s in (ok r, s')

infixl 5 ◌>>=◌ ◌>>◌
unfoldable pub ◌>>=◌ : {A B : Type 0} → Action A → (A → Action B) → Action B
◌>>=◌ m f s = let (r, s') = m s in elim r [ ok a ↦ f a s' | err e ↦ (err e, s') ]

unfoldable pub ◌>>◌ : {A B : Type 0} → Action A → Action B → Action B
m >> k = m >>= λ _. k

unfoldable pub require : Bool → Error → Action (Unit {0})
require true e s = (ok tt, s)
require false e s = (err e, s)

-- A check that returns an error or nil.
unfoldable pub check_none : Option Error → Action (Unit {0})
check_none none s = (ok tt, s)
check_none (some e) s = (err e, s)

abbrev pub commit : Result Db → Daemon → Result (Unit {0}) × Daemon
commit (ok db) s = (ok tt, record s { db = db })
commit (err e) s = (err e, s)

-- An INSERT or UPDATE: it takes effect as a whole, or fails and changes nothing.
unfoldable pub statement : World → (Db → Result Db) → Action (Unit {0})
statement w f s = commit (unless_fault (w.db_fault s.clock) (f s.db)) (tick s)

unfoldable pub emit : Effect → Action (Unit {0})
emit e s = (ok tt, record s { trace = e ∷ s.trace })

-- Writes outside the service: the effect is noted whatever the answer.
unfoldable pub add_addresses : World → Partition → ℕ → String → Action (Unit {0})
add_addresses w partition address description = do
  emit (watch partition address description)
  check_none (← ask w.add_addresses)

unfoldable pub add_pool : World → ChainIndex → List Transaction → Action (Unit {0})
add_pool w basis txns = do
  db ← gets (λ s. s.db)
  emit (submit db basis txns)
  check_none (← ask w.add_pool)

-- Named on the `unfolding` line of a proof, it opens all of the above.
unfoldable pub machine : {A : Type 0} → Action A → Daemon → Result A × Daemon
unfolding pure fail lift gets ask ask_result query attempt ◌>>=◌ ◌>>◌ require check_none statement
    emit add_addresses add_pool
machine m s = m s
