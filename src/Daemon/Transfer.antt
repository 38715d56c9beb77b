-- ===== src/Daemon/Transfer.antt =====
-- internal/daemon/swap.go and service.go: a transaction that pays out of the custody wallet.
pub mod Parts
pub mod Balance
pub mod Preserved
use qday_walletd.Common.{
  ℕ, zero, suc, ◌+◌, ◌%◌, ◌^◌, String, Bool, true, false, not, ◌||◌, Option, none, some, List, [],
  ◌∷◌, ◌++◌, map, Bytes, length, leb, ltb, ◌==◌, if◌then◌else◌,
}
use qday_walletd.Types.{
  Platform, Transaction, SiacoinElement, SiacoinInput, SiacoinOutput, SatisfiedPolicy,
  ConsensusState, Currency, Result, ok, err, failure, same_index, unsigned, add, sub,
  add_with_overflow,
}
use qday_walletd.Meta.Tables.{order_by}
use qday_walletd.Meta.Addresses.{Address, address_by_hash}
use qday_walletd.Daemon.Machine.{
  World, Action, pure, fail, lift, ask, query, ◌>>=◌, ◌>>◌, require, check_none,
}
use qday_walletd.Daemon.Outputs.{spend_value, spendable_outputs}
use qday_walletd.Daemon.Signing.{Signed, signature_for}
use qday_walletd.Daemon.Wallet.{new_address}

abbrev pub max_inputs : ℕ
max_inputs = 128

-- A chosen output with the record of the key that owns it.
pub record Coin : Type 0 where
  pub element : SiacoinElement
  pub owner : Address

abbrev pub known_owner : Option Address → Action Address
known_owner none = fail (failure "indexed output belongs to an unknown key")
known_owner (some owner) = pure owner

module _ (p : Platform) (cs : ConsensusState) where
  -- `sort.Slice`: the most valuable first. Equal ones are left in their order here.
  abbrev pub larger_first : SiacoinElement → SiacoinElement → Bool
  larger_first a b = leb (spend_value p cs b) (spend_value p cs a)

  abbrev pub coin_input : Coin → SiacoinInput
  coin_input c = record {
    parent = c.element;
    satisfied_policy = unsigned (p.keys_policy c.owner.public);
  }

module _ (p : Platform) (w : World) (cs : ConsensusState) where
  -- The loop over the sorted outputs, up to the required sum or the limit.
  unfoldable pub choose :
      Currency → List SiacoinElement → List Coin → Currency → Action (List Coin × Currency)
  choose required [] coins total = pure (coins, total)
  choose required (output ∷ outputs) coins total = do
    found ← query w (address_by_hash p output.output.address)
    owner ← known_owner found
    sum ← lift (add total (spend_value p cs output))
    let chosen = coins ++ record { element = output; owner = owner } ∷ []
    let more = choose required outputs chosen sum
    if leb required sum || length chosen == max_inputs then pure (chosen, sum) else more

  -- The change, if there is any, goes to a new address.
  unfoldable pub change_outputs : Currency → Action (List SiacoinOutput)
  change_outputs change = if change == 0 then pure [] else do
    a ← new_address p w "" "change"
    pure (record { value = change; address = a.address } ∷ [])

  -- The loop of `performDefendWork`; `fuel` bounds the nonces that are tried.
  find_nonce : ℕ → ℕ → ℕ → Action ℕ
  find_nonce zero intent nonce = fail (failure "out of fuel")
  find_nonce (suc fuel) intent nonce = do
    let next = (nonce + 1) % 2 ^ 64
    let more = find_nonce fuel intent next
    let checked = ask w.cancelled >>= λ stop. check_none stop >> more
    if p.work_valid intent nonce cs.defend_bits
        then pure nonce
        else if next % 1024 == 0
        then checked
        else more

  -- `performDefendWork`, for the envelope of a transfer.
  unfoldable pub perform_defend_work : Transaction → Action Transaction
  unfolding find_nonce
  perform_defend_work txn = if not (p.qday_active cs (cs.index.height + 1)) then pure txn else do
    nonce ← lift (p.envelope_nonce txn.arbitrary_data)
    good ← find_nonce w.nonce_bound (p.work_intent cs txn) nonce
    pure (record txn { arbitrary_data = p.transfer_envelope good })

  -- The loop of `signInputs` over the inputs and their owners.
  sign_from :
      Bytes → ℕ → List Signed → List Address → List SiacoinInput → Action (List SiacoinInput)
  unfolding signature_for
  sign_from master hash signed (owner ∷ owners) (input ∷ inputs) = do
    check_none (← ask w.cancelled)
    policy ← lift (signature_for p master hash signed owner)
    rest ←
        sign_from master hash (record { index = owner.index; policy = policy } ∷ signed) owners
          inputs
    pure (record input { satisfied_policy = policy } ∷ rest)
  sign_from master hash signed owners inputs = pure []

  -- `signInputs`
  unfoldable pub sign_inputs : Bytes → List Address → Transaction → Action Transaction
  unfolding sign_from
  sign_inputs master owners txn = do
    require (length owners == length txn.inputs) (failure "input owner count mismatch")
    inputs ← sign_from master (p.sig_hash cs txn) [] owners txn.inputs
    pure (record txn { inputs = inputs })

  abbrev pub transfer : ℕ → Currency → Currency → List Coin → List SiacoinOutput → Transaction
  transfer destination value fee coins change = record {
    inputs = map (coin_input p cs) coins;
    outputs = record { value = value; address = destination } ∷ change;
    miner_fee = fee;
    arbitrary_data = p.transfer_envelope 0;
  }

  -- `buildCustodyTransfer`
  unfoldable pub build_custody_transfer : Bytes → ℕ → Currency → Currency → Action Transaction
  build_custody_transfer master destination value fee = do
    let required = add_with_overflow value fee
    require (not required.1) (failure "amount plus fee overflows")
    outputs ← spendable_outputs p w cs
    chosen ← choose required.0 (order_by (larger_first p cs) outputs) [] 0
    require (leb required.0 chosen.1)
        (failure "insufficient confirmed spendable balance within the 128-input limit")
    change ← lift (sub chosen.1 required.0)
    changes ← change_outputs change
    worked ← perform_defend_work (transfer destination value fee chosen.0 changes)
    txn ← sign_inputs master (map (λ c. c.owner) chosen.0) worked
    tip ← ask w.tip
    require (same_index tip cs.index) (failure "chain changed while signing; retry")
    check_none (p.validate cs txn)
    pure txn
