-- ===== src/Daemon/Transfer/Balance.antt =====
-- A transfer out of custody: it pays, it balances, and it spends what may be spent.
use qday_walletd.Common.{
  All-map, ℕ, ◌+◌, ◌≤◌, ◌≡◌, refl, ap, ◌∙◌, true, false, none, List, [], ◌∷◌, map, Bytes, arith,
  length, All, leb_false→lt,
}
use qday_walletd.Types.{
  Platform, Transaction, SiacoinOutput, ConsensusState, Currency, ok, same_index, add_with_overflow,
  sub-eq_ok, sub, currency_limit,
}
use qday_walletd.Meta.Tables.{All-order_by}
use qday_walletd.Daemon.Machine.{World, Daemon}
use qday_walletd.Daemon.Steps.{
  Yields, Yields-bind, Yields-then, Yields-map, Yields-pure, Yields-lift, Yields-ask,
  Yields-require, Yields-check_none,
}
use qday_walletd.Daemon.Outputs.Fresh.{IsFree, Yields-spendable_outputs}
use qday_walletd.Daemon.Transfer.{Coin, coin_input, build_custody_transfer}
use qday_walletd.Daemon.Transfer.Parts.{
  elements, parents, output_sum, value_sum, parents-coin_input, AreChosen, SameCoins, Yields-choose,
  Yields-change_outputs, Yields-perform_defend_work, Yields-sign_inputs,
}

-- What a transfer promises: its first output pays the amount to the destination, at most one more
-- output returns the change, the inputs are worth the outputs and the fee, at most 128 of them, all of
-- them spendable with respect to `pool`, the chain had not moved after the signing,
-- and consensus accepts it.
pub record IsTransfer (p : Platform) (w : World) (cs : ConsensusState) (pool : List Transaction)
    (destination : ℕ) (value fee : Currency) (txn : Transaction) : Type 0 where
  pub change : List SiacoinOutput
  pub pays : txn.outputs ≡ record { value = value; address = destination } ∷ change
  pub one_change : length change ≤ 1
  pub pays_fee : txn.miner_fee ≡ fee
  pub balanced : value_sum p cs (parents txn.inputs) ≡ output_sum txn.outputs + txn.miner_fee
  pub few : length (parents txn.inputs) ≤ 128
  pub spendable : All (λ e. IsFree p cs pool e) (parents txn.inputs)
  pub signed : ℕ
  pub current : same_index (w.tip signed) cs.index ≡ true
  pub valid : p.validate cs txn ≡ none

module _ (p : Platform) (w : World) (cs : ConsensusState) where
  pub length-elements : (coins : List Coin) → length (elements coins) ≡ length coins
  length-elements [] = refl
  length-elements (c ∷ coins) = omega (arith, length-elements coins)

  -- The numbers: what was chosen is the amount, the fee and the change.
  balance :
      (value fee change total : Currency)
      → (add_with_overflow value fee).1 ≡ false
      → sub total (add_with_overflow value fee).0 ≡ ok change
      → total ≡ value + change + fee
  unfolding add_with_overflow
  balance value fee change total fits e =
      let diff = sub-eq_ok total _ change e in
      let small = leb_false→lt currency_limit (value + fee) fits in omega arith

  -- The parts of a transfer together.
  built :
      (destination : ℕ) (value fee change total : Currency) (coins : List Coin)
      (changes : List SiacoinOutput) (worked txn : Transaction) (pool : List Transaction)
      (signed_at : ℕ)
      → AreChosen p cs (λ e. IsFree p cs pool e) coins total
      → total ≡ value + change + fee
      → (output_sum changes ≡ change) × (length changes ≤ 1)
      → (worked.inputs ≡ map (coin_input p cs) coins)
        × (worked.outputs ≡ record { value = value; address = destination } ∷ changes)
        × (worked.miner_fee ≡ fee)
      → SameCoins worked txn
      → same_index (w.tip signed_at) cs.index ≡ true
      → p.validate cs txn ≡ none
      → IsTransfer p w cs pool destination value fee txn
  built destination value fee change total coins changes worked txn pool signed_at chose sums
        paid_back same signed current valid =
      let spent : parents txn.inputs ≡ elements coins =
        signed.inputs ∙ ap parents same.0 ∙ parents-coin_input p cs coins in
      let outs : txn.outputs ≡ record { value = value; address = destination } ∷ changes =
        signed.outputs ∙ same.1 in
      let paid : txn.miner_fee ≡ fee = signed.fee ∙ same.2 in
      let worth = chose.worth in
      let few = chose.few in
      record {
        change = changes;
        pays = outs;
        one_change = paid_back.1;
        pays_fee = paid;
        balanced = rw (spent, outs, paid) (omega (arith, sums, worth, paid_back.0));
        few = rw spent (omega (arith, few, length-elements coins));
        spendable = rw spent chose.among;
        signed = signed_at;
        current = current;
        valid = valid;
      }

  -- What `buildCustodyTransfer` returns pays the amount to the destination in its first output, has at
  -- most one more output, is worth as much as its outputs and its fee, has at most 128 inputs, none of
  -- them worthless or spent by the pool as it was at the call, was made at the tip, and is valid.
  pub Yields-build_custody_transfer :
      (master : Bytes) (destination : ℕ) (value fee : Currency) (s : Daemon)
      → Yields
          (build_custody_transfer p w cs master destination value fee)
          s
          (λ txn _. IsTransfer p w cs (w.pool s.clock) destination value fee txn)
  unfolding build_custody_transfer
  Yields-build_custody_transfer master destination value fee s = Yields-then (
      Yields-require _ _ λ fits. Yields-bind (
        Yields-map (Yields-spendable_outputs p w cs _) λ outputs t fresh. Yields-bind (
          Yields-map
            (Yields-choose p w cs _ _ [] 0 _
              (All-order_by _ _ outputs (All-map outputs (λ e m. m.0) fresh))
              (record { worth = refl; few = omega arith; among = tt }) (omega arith))
            λ chosen t chose. Yields-then (
              Yields-require _ _ λ enough. Yields-bind (
                Yields-lift _ λ change rest. Yields-bind (
                  Yields-map (Yields-change_outputs p w cs change _) λ changes t paid_back.
                    Yields-bind (
                      Yields-map (Yields-perform_defend_work p w cs _ _) λ worked t same.
                        Yields-bind (
                          Yields-map (Yields-sign_inputs p w cs master _ worked _) λ txn t signed.
                            Yields-bind (
                              Yields-ask _ (
                                Yields-then (
                                  Yields-require _ _ λ current. Yields-then (
                                    Yields-check_none _ λ valid. Yields-pure _ (
                                      built destination value fee change _ _ changes worked txn _ _
                                        chose (balance value fee change _ (ground arith) rest)
                                        paid_back same signed current valid)))))))))))))
