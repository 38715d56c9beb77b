-- ===== src/Daemon/Defend/Conserved.antt =====
-- The transaction of the automatic DEFEND: it moves what is about to lose its shield, and loses only
-- the fee.
use qday_walletd.Common.{
  ltb_false→le, max, ◌%◌, ◌^◌, ◌/◌, ◌≤◌, ℕ, ◌+◌, ◌≤◌, ◌<◌, ◌≡◌, refl, ap, ◌∙◌, true, false, none,
  List, [], ◌∷◌, ◌++◌, map, arith, length, ◌==◌, not, ltb, ltb→lt, All, All-map,
}
use qday_walletd.Types.{
  Platform, Transaction, SiacoinElement, ConsensusState, Currency, ok, same_index, sub, sub-eq_ok,
}
use qday_walletd.Meta.Tables.{All-order_by}
use qday_walletd.Daemon.Machine.{World, Daemon}
use qday_walletd.Daemon.Steps.{
  Yields, Yields-bind, Yields-then, Yields-map, Yields-any, Yields-pure, Yields-lift, Yields-ask,
  Yields-query, Yields-require, Yields-check_none, Yields-if,
}
use qday_walletd.Daemon.Inputs.{standard_fee}
use qday_walletd.Daemon.Outputs.Fresh.{IsFree, Yields-spendable_outputs}
use qday_walletd.Daemon.Transfer.{Coin, coin_input}
use qday_walletd.Daemon.Transfer.Parts.{
  elements, parents, value_sum, parents-coin_input, AreChosen, SameCoins, AreChosen-snoc,
  Yields-known_owner, Yields-perform_defend_work, Yields-sign_inputs,
}
use qday_walletd.Daemon.Transfer.Balance.{length-elements}
use qday_walletd.Daemon.Defend.{is_near, select, build_defend}

-- The height at which the shield of the output ends is at most a quarter of the shield, and at least two
-- blocks, above the tip; heights wrap around at 2^64.
pub record IsNear (cs : ConsensusState) (e : SiacoinElement) : Type 0 where
  pub soon :
      (max e.maturity_height cs.qday_height + cs.shield_blocks) % 2 ^ 64
      ≤ (cs.index.height + max 2 (cs.shield_blocks / 4)) % 2 ^ 64

is_near-IsNear : (cs : ConsensusState) (e : SiacoinElement) → is_near cs e ≡ true → IsNear cs e
is_near-IsNear cs e h = record { soon = ltb_false→le _ _ (ground arith) }

-- A DEFEND transaction: its inputs are outputs that may be spent and whose shield is about to end, at
-- least one and at most 128 of them; it has one output, worth what they are worth less the standard
-- fee, and more than nothing; the chain had not moved after the signing, and consensus accepts it.
pub record IsDefend (p : Platform) (w : World) (cs : ConsensusState) (pool : List Transaction)
    (txn : Transaction) (destination : ℕ) (value : Currency) : Type 0 where
  pub moves : txn.outputs ≡ record { value = value; address = destination } ∷ []
  pub pays_fee : txn.miner_fee ≡ standard_fee p
  pub balanced : value_sum p cs (parents txn.inputs) ≡ value + standard_fee p
  pub worth : 0 < value
  pub some_input : 0 < length (parents txn.inputs)
  pub few : length (parents txn.inputs) ≤ 128
  pub spendable : All (λ e. IsFree p cs pool e) (parents txn.inputs)
  pub near : All (IsNear cs) (parents txn.inputs)
  pub signed : ℕ
  pub current : same_index (w.tip signed) cs.index ≡ true
  pub valid : p.validate cs txn ≡ none

module _ (p : Platform) (w : World) (cs : ConsensusState) (pool : List Transaction) where
  abbrev MayMove : SiacoinElement → Type 0
  MayMove e = (IsFree p cs pool e) × IsNear cs e

  Yields-select :
      (outputs : List SiacoinElement) (coins : List Coin) (total : Currency) (s : Daemon)
      → All (λ e. IsFree p cs pool e) outputs
      → AreChosen p cs MayMove coins total
      → length coins < 128
      → Yields (select p w cs outputs coins total) s (λ r _. AreChosen p cs MayMove r.0 r.1)
  unfolding select
  Yields-select [] coins total s good h room = Yields-pure _ h
  Yields-select (output ∷ outputs) coins total s good h room =
      Yields-if (is_near cs output)
        (λ near. Yields-bind (
          Yields-bind (
            Yields-query _ _ λ found looked. Yields-known_owner found λ owner. Yields-bind (
              Yields-lift _ λ sum added.
                let next =
                  AreChosen-snoc p w cs coins (record { element = output; owner = owner }) total sum
                    h room (good.0, is_near-IsNear cs output near) added in
                Yields-if (length (coins ++ record { element = output; owner = owner } ∷ []) == 128)
                  (λ stop. Yields-pure _ next)
                  (λ go.
                    Yields-select outputs _ sum _ good.1 next (more_room coins _ sum next go))))))
        (λ far. Yields-select outputs coins total s good.1 h room)
    where
      more_room :
          (old : List Coin) (c : Coin) (sum : Currency)
          → AreChosen p cs MayMove (old ++ c ∷ []) sum
          → (length (old ++ c ∷ []) == 128) ≡ false
          → length (old ++ c ∷ []) < 128
      more_room old c sum next go = let f = next.few in ground arith

module _ (p : Platform) (w : World) (cs : ConsensusState) where
  -- The parts of a DEFEND transaction together.
  built :
      (destination : ℕ) (value total : Currency) (coins : List Coin) (worked txn : Transaction)
      (pool : List Transaction) (signed_at : ℕ)
      → AreChosen p cs (MayMove p w cs pool) coins total
      → not (length coins == 0) ≡ true
      → ltb (standard_fee p) total ≡ true
      → sub total (standard_fee p) ≡ ok value
      → (worked.inputs ≡ map (coin_input p cs) coins)
        × (worked.outputs ≡ record { value = value; address = destination } ∷ [])
        × (worked.miner_fee ≡ standard_fee p)
      → SameCoins worked txn
      → same_index (w.tip signed_at) cs.index ≡ true
      → p.validate cs txn ≡ none
      → IsDefend p w cs pool txn destination value
  built destination value total coins worked txn pool signed_at chose some_coin more rest same
        signed current valid =
      let spent : parents txn.inputs ≡ elements coins =
        signed.inputs ∙ ap parents same.0 ∙ parents-coin_input p cs coins in
      let worth = chose.worth in
      let few = chose.few in
      let left = sub-eq_ok total (standard_fee p) value rest in
      let enough = ltb→lt (standard_fee p) total more in
      let nonempty : 0 < length coins = ground arith in
      record {
        moves = signed.outputs ∙ same.1;
        pays_fee = signed.fee ∙ same.2;
        balanced = rw spent (omega (arith, worth, left));
        worth = omega (arith, left, enough);
        some_input = rw spent (omega (arith, nonempty, length-elements p w cs coins));
        few = rw spent (omega (arith, few, length-elements p w cs coins));
        spendable = rw spent (All-map (elements coins) (λ e m. m.0) chose.among);
        near = rw spent (All-map (elements coins) (λ e m. m.1) chose.among);
        signed = signed_at;
        current = current;
        valid = valid;
      }

  -- What the automatic DEFEND builds moves at least one and at most 128 outputs, all of them spendable
  -- with respect to the pool and near the end of their shield, into one output that is worth what they
  -- are worth less the standard fee, and more than nothing; it was made at the tip and is valid.
  pub Yields-build_defend :
      (s : Daemon)
      → Yields (build_defend p w cs) s (λ r _. (k : ℕ) × IsDefend p w cs (w.pool k) r.0 r.1.0 r.1.1)
  unfolding build_defend
  Yields-build_defend s = Yields-bind (
      Yields-map (Yields-any _) λ master t0 u. Yields-bind (
        Yields-map (Yields-spendable_outputs p w cs _) λ outputs t fresh. Yields-bind (
          Yields-map
            (Yields-select p w cs (w.pool t0.clock) _ [] 0 _
              (All-order_by _ _ outputs (All-map outputs (λ e m. m.0) fresh))
              (record { worth = refl; few = omega arith; among = tt }) (omega arith))
            λ chosen t chose. Yields-then (
              Yields-require _ _ λ some_coin. Yields-then (
                Yields-require _ _ λ more. Yields-bind (
                  Yields-map (Yields-any _) λ destination t u. Yields-bind (
                    Yields-lift _ λ paid rest. Yields-bind (
                      Yields-map (Yields-perform_defend_work p w cs _ _) λ worked t same.
                        Yields-bind (
                          Yields-map (Yields-sign_inputs p w cs master _ worked _) λ txn t signed.
                            Yields-bind (
                              Yields-ask _ (
                                Yields-then (
                                  Yields-require _ _ λ current. Yields-then (
                                    Yields-check_none _ λ valid. Yields-pure _ (
                                      t0.clock,
                                      built destination.address paid _ _ worked txn _ _ chose
                                          some_coin more rest same signed current valid,
                                    ))))))))))))))
