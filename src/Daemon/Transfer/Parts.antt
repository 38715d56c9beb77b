-- ===== src/Daemon/Transfer/Parts.antt =====
-- What the steps of a transfer return: the chosen coins, the change, the work, the signatures.
use qday_walletd.Common.{
  ℕ, ◌+◌, ◌≤◌, ◌<◌, ◌≡◌, refl, ap, ◌∙◌, false, not, ◌||◌, Option, none, some, List, [], ◌∷◌, ◌++◌,
  map, Bytes, arith, length, length-append, leb, ◌==◌, All, All-append,
}
use qday_walletd.Types.{
  Platform, Transaction, SiacoinElement, SiacoinInput, SiacoinOutput, ConsensusState, Currency, ok,
  add, add-eq_ok,
}
use qday_walletd.Meta.Addresses.{Address}
use qday_walletd.Daemon.Machine.{World, Daemon}
use qday_walletd.Daemon.Steps.{
  Yields, Yields-bind, Yields-then, Yields-map, Yields-any, Yields-pure, Yields-fail, Yields-lift,
  Yields-ask, Yields-query, Yields-require, Yields-check_none, Yields-if,
}
use qday_walletd.Daemon.Outputs.{spend_value}
use qday_walletd.Daemon.Signing.{Signed}
use qday_walletd.Daemon.Wallet.{new_address}
use qday_walletd.Daemon.Transfer.{
  Coin, known_owner, coin_input, choose, change_outputs, perform_defend_work, sign_from,
  sign_inputs,
}

abbrev pub elements : List Coin → List SiacoinElement
elements [] = []
elements (c ∷ coins) = c.element ∷ elements coins

abbrev pub parents : List SiacoinInput → List SiacoinElement
parents [] = []
parents (i ∷ inputs) = i.parent ∷ parents inputs

abbrev pub output_sum : List SiacoinOutput → ℕ
output_sum [] = 0
output_sum (o ∷ outputs) = o.value + output_sum outputs

elements-snoc :
    (coins : List Coin) (c : Coin) → elements (coins ++ c ∷ []) ≡ elements coins ++ c.element ∷ []
elements-snoc [] c = refl
elements-snoc (x ∷ coins) c = ap (λ t. x.element ∷ t) (elements-snoc coins c)

module _ (p : Platform) (cs : ConsensusState) where
  abbrev pub value_sum : List SiacoinElement → ℕ
  value_sum [] = 0
  value_sum (e ∷ es) = spend_value p cs e + value_sum es

  value_sum-snoc :
      (es : List SiacoinElement) (e : SiacoinElement)
      → value_sum (es ++ e ∷ []) ≡ value_sum es + spend_value p cs e
  value_sum-snoc [] e = omega arith
  value_sum-snoc (x ∷ es) e = omega (arith, value_sum-snoc es e)

  pub parents-coin_input :
      (coins : List Coin) → parents (map (coin_input p cs) coins) ≡ elements coins
  parents-coin_input [] = refl
  parents-coin_input (c ∷ coins) = ap (λ t. c.element ∷ t) (parents-coin_input coins)

-- An output whose owner is not known ends the run.
pub Yields-known_owner :
    {Q : Address → Daemon → Type 0} (found : Option Address) {t : Daemon}
    → ((owner : Address) → Q owner t)
    → Yields (known_owner found) t Q
Yields-known_owner none q = Yields-fail _
Yields-known_owner (some owner) q = Yields-pure owner (q owner)

-- The coins chosen so far: outputs that satisfy `P`, at most 128, worth `total`.
pub record AreChosen (p : Platform) (cs : ConsensusState) (P : SiacoinElement → Type 0)
    (coins : List Coin) (total : Currency) : Type 0 where
  pub worth : total ≡ value_sum p cs (elements coins)
  pub few : length coins ≤ 128
  pub among : All P (elements coins)

module _ (p : Platform) (w : World) (cs : ConsensusState) {P : SiacoinElement → Type 0} where
  pub AreChosen-snoc :
      (coins : List Coin) (c : Coin) (total sum : Currency)
      → AreChosen p cs P coins total
      → length coins < 128
      → P c.element
      → add total (spend_value p cs c.element) ≡ ok sum
      → AreChosen p cs P (coins ++ c ∷ []) sum
  AreChosen-snoc coins c total sum h room good e = record {
    worth =
        rw (elements-snoc coins c, value_sum-snoc p cs (elements coins) c.element)
          ((add-eq_ok _ _ _ e).0 ∙ ap (λ t. t + spend_value p cs c.element) h.worth);
    few = omega (arith, length-append coins (c ∷ []));
    among =
        rw (elements-snoc coins c)
          (All-append P (elements coins) (c.element ∷ []) h.among (good, tt));
  }

  pub Yields-choose :
      (required : Currency) (outputs : List SiacoinElement) (coins : List Coin) (total : Currency)
      (s : Daemon)
      → All P outputs
      → AreChosen p cs P coins total
      → length coins < 128
      → Yields (choose p w cs required outputs coins total) s (λ r _. AreChosen p cs P r.0 r.1)
  unfolding choose
  Yields-choose required [] coins total s good h room = Yields-pure _ h
  Yields-choose required (output ∷ outputs) coins total s good h room = Yields-bind (
      Yields-query _ _ λ found looked. Yields-bind (
        Yields-known_owner found λ owner. Yields-bind (
          Yields-lift _ λ sum added.
            let next =
              AreChosen-snoc coins (record { element = output; owner = owner }) total sum h room
                good.0 added in
            Yields-if
              (leb required sum
                || length (coins ++ record { element = output; owner = owner } ∷ []) == 128)
              (λ stop. Yields-pure _ next)
              (λ go.
                Yields-choose required outputs _ sum _ good.1 next
                  (more_room coins _ sum next go)))))
    where
      more_room :
          (old : List Coin) (c : Coin) (sum : Currency)
          → AreChosen p cs P (old ++ c ∷ []) sum
          → (leb required sum || length (old ++ c ∷ []) == 128) ≡ false
          → length (old ++ c ∷ []) < 128
      more_room old c sum next go = let f = next.few in ground arith

-- The transaction keeps its inputs' parents, its outputs and its fee.
pub record SameCoins (t t' : Transaction) : Type 0 where
  pub inputs : parents t'.inputs ≡ parents t.inputs
  pub outputs : t'.outputs ≡ t.outputs
  pub fee : t'.miner_fee ≡ t.miner_fee

module _ (p : Platform) (w : World) (cs : ConsensusState) where
  pub Yields-change_outputs :
      (change : Currency) (s : Daemon)
      → Yields (change_outputs p w cs change) s (λ r _. (output_sum r ≡ change) × (length r ≤ 1))
  unfolding change_outputs
  Yields-change_outputs change s =
      Yields-if (change == 0) (λ zero_change. Yields-pure _ (ground arith, omega arith))
        (λ some_change. Yields-bind (
          Yields-map (Yields-any (new_address p w "" "change"))
            λ a t u. Yields-pure _ (omega arith, omega arith)))

  pub Yields-perform_defend_work :
      (txn : Transaction) (s : Daemon)
      → Yields (perform_defend_work p w cs txn) s (λ r _.
        (r.inputs ≡ txn.inputs) × (r.outputs ≡ txn.outputs) × (r.miner_fee ≡ txn.miner_fee))
  unfolding perform_defend_work
  Yields-perform_defend_work txn s =
      Yields-if (not (p.qday_active cs (cs.index.height + 1)))
        (λ early. Yields-pure _ (refl, refl, refl))
        (λ late. Yields-bind (
          Yields-lift _ λ nonce parsed.
            Yields-bind (Yields-map (Yields-any _) λ good t u. Yields-pure _ (refl, refl, refl))))

  Yields-sign_from :
      (master : Bytes) (hash : ℕ) (signed : List Signed) (owners : List Address)
      (inputs : List SiacoinInput) (s : Daemon)
      → length owners ≡ length inputs
      → Yields
          (sign_from p w cs master hash signed owners inputs)
          s
          (λ r _. parents r ≡ parents inputs)
  unfolding sign_from
  Yields-sign_from master hash signed [] [] s e = Yields-pure _ refl
  Yields-sign_from master hash signed [] (i ∷ inputs) s e = absurd (omega arith)
  Yields-sign_from master hash signed (o ∷ owners) [] s e = absurd (omega arith)
  Yields-sign_from master hash signed (o ∷ owners) (i ∷ inputs) s e = Yields-bind (
      Yields-ask _ (
        Yields-then (
          Yields-check_none _ λ going. Yields-bind (
            Yields-lift _ λ policy made. Yields-bind (
              Yields-map (Yields-sign_from master hash _ owners inputs _ (omega arith))
                λ rest t same. Yields-pure _ (ap (λ r. i.parent ∷ r) same))))))

  pub Yields-sign_inputs :
      (master : Bytes) (owners : List Address) (txn : Transaction) (s : Daemon)
      → Yields (sign_inputs p w cs master owners txn) s (λ r _. SameCoins txn r)
  unfolding sign_inputs
  Yields-sign_inputs master owners txn s = Yields-then (
      Yields-require _ _ λ counted. Yields-bind (
        Yields-map (Yields-sign_from master _ [] owners txn.inputs _ (ground arith))
          λ inputs t same. Yields-pure _ (record { inputs = same; outputs = refl; fee = refl })))
