-- ===== src/Daemon/Transfer/Preserved.antt =====
-- Building a transfer submits nothing.
use qday_walletd.Common.{ℕ, zero, suc, Option, none, some, List, [], ◌∷◌, Bytes}
use qday_walletd.Types.{
  Platform, Transaction, SiacoinElement, SiacoinInput, ConsensusState, Currency,
}
use qday_walletd.Meta.Addresses.{Address}
use qday_walletd.Daemon.Machine.{World, Daemon}
use qday_walletd.Daemon.Invariant.{
  Preserves, IsTimeless, IsAboutSubmissions, Preserves-pure, Preserves-fail, preserves_rules,
}
use qday_walletd.Daemon.Outputs.Preserved.{spendable_outputs-Preserves}
use qday_walletd.Daemon.Wallet.Preserved.{new_address-Preserves}
use qday_walletd.Daemon.Signing.{Signed}
use qday_walletd.Daemon.Transfer.{
  Coin, known_owner, choose, change_outputs, find_nonce, perform_defend_work, sign_from,
  sign_inputs, build_custody_transfer,
}

module _ {I : Daemon → Type 0} where
  pub known_owner-Preserves : (o : Option Address) → Preserves I (known_owner o)
  known_owner-Preserves none = Preserves-fail _
  known_owner-Preserves (some a) = Preserves-pure _

module _ (p : Platform) (w : World) (cs : ConsensusState) {I : Daemon → Type 0}
    (i : IsTimeless I) where
  choose-Preserves :
      (required : Currency) (outputs : List SiacoinElement) (coins : List Coin) (total : Currency)
      → Preserves I (choose p w cs required outputs coins total)
  unfolding choose
  choose-Preserves required [] coins total = Preserves-pure _
  choose-Preserves required (o ∷ outputs) coins total =
      search (preserves_rules, i, known_owner-Preserves, choose-Preserves required outputs)

  find_nonce-Preserves : (fuel intent nonce : ℕ) → Preserves I (find_nonce p w cs fuel intent nonce)
  unfolding find_nonce
  find_nonce-Preserves zero intent nonce = Preserves-fail _
  find_nonce-Preserves (suc fuel) intent nonce =
      search (preserves_rules, i, find_nonce-Preserves fuel)

  pub perform_defend_work-Preserves :
      (txn : Transaction) → Preserves I (perform_defend_work p w cs txn)
  unfolding perform_defend_work
  perform_defend_work-Preserves txn = search (preserves_rules, find_nonce-Preserves)

  sign_from-Preserves :
      (master : Bytes) (hash : ℕ) (signed : List Signed) (owners : List Address)
      (inputs : List SiacoinInput)
      → Preserves I (sign_from p w cs master hash signed owners inputs)
  unfolding sign_from
  sign_from-Preserves master hash signed [] inputs = Preserves-pure _
  sign_from-Preserves master hash signed (o ∷ owners) [] = Preserves-pure _
  sign_from-Preserves master hash signed (o ∷ owners) (x ∷ inputs) = search (
    preserves_rules,
    i,
    λ (signed : List Signed). sign_from-Preserves master hash signed owners inputs,
  )

  pub sign_inputs-Preserves :
      (master : Bytes) (owners : List Address) (txn : Transaction)
      → Preserves I (sign_inputs p w cs master owners txn)
  unfolding sign_inputs
  sign_inputs-Preserves master owners txn = search (preserves_rules, sign_from-Preserves)

  change_outputs-Preserves :
      IsAboutSubmissions I → (change : Currency) → Preserves I (change_outputs p w cs change)
  unfolding change_outputs
  change_outputs-Preserves j change = search (preserves_rules, new_address-Preserves, i, j)

  pub build_custody_transfer-Preserves :
      IsAboutSubmissions I
      → (master : Bytes) (destination : ℕ) (value fee : Currency)
      → Preserves I (build_custody_transfer p w cs master destination value fee)
  unfolding build_custody_transfer
  build_custody_transfer-Preserves j master destination value fee =
      search
        (
          preserves_rules, i, j, spendable_outputs-Preserves, choose-Preserves,
          change_outputs-Preserves, perform_defend_work-Preserves, sign_inputs-Preserves,
        )
        depth 20
