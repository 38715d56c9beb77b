-- ===== src/Daemon/Rebroadcast/Kept.antt =====
-- Carrying proofs along and submitting change no table.
use qday_walletd.Common.{ℕ, zero, suc, Bool, Option, none, some, List}
use qday_walletd.Types.{Platform, Transaction, ChainIndex, Error, Result, ok, err}
use qday_walletd.Meta.Tables.{Db}
use qday_walletd.Daemon.Machine.{World, Action}
use qday_walletd.Daemon.Preserves.{Keeps, Keeps-pure, Keeps-fail, keeps_rules}
use qday_walletd.Daemon.Chain.Kept.{broadcast-Keeps}
use qday_walletd.Daemon.Rebroadcast.{
  known_index, known_parent, walk_back, next_basis, next_step, carry, update_proofs, announce_added,
  submit_proved,
}

module _ (w : World) {Q : Db → Type 0} where
  known_parent-Keeps : (o : Option ℕ) → Keeps Q (known_parent w o)
  unfolding known_parent
  known_parent-Keeps none = Keeps-fail _
  known_parent-Keeps (some id) = Keeps-pure _

  known_index-Keeps : (o : Option ChainIndex) → Keeps Q (known_index w o)
  unfolding known_index
  known_index-Keeps none = Keeps-fail _
  known_index-Keeps (some index) = Keeps-pure _

  walk_back-Keeps : (n : ℕ) (next to : ChainIndex) → Keeps Q (walk_back w n next to)
  unfolding walk_back
  walk_back-Keeps zero next to = Keeps-pure _
  walk_back-Keeps (suc n) next to =
      search (keeps_rules, known_parent-Keeps, walk_back-Keeps n) depth 20

  next_basis-Keeps :
      (from to : ChainIndex) (on_chain : Bool) → Keeps Q (next_basis w from to on_chain)
  unfolding next_basis
  next_basis-Keeps from to on_chain =
      search (keeps_rules, known_index-Keeps, walk_back-Keeps) depth 20

  next_step-Keeps : (from to : ChainIndex) → Keeps Q (next_step w from to)
  unfolding next_step
  next_step-Keeps from to = search (keeps_rules, next_basis-Keeps) depth 20

  carry-Keeps :
      (txns : List Transaction) (from : ChainIndex)
      (again : List Transaction → ChainIndex → Action (List Transaction × Option Error))
      (next : Result ChainIndex)
      → ((ts : List Transaction) (at : ChainIndex) → Keeps Q (again ts at))
      → Keeps Q (carry w txns from again next)
  unfolding carry
  carry-Keeps txns from again (err x) h = Keeps-pure _
  carry-Keeps txns from again (ok next) h = search (keeps_rules, h) depth 20

  pub update_proofs-Keeps :
      (fuel : ℕ) (txns : List Transaction) (from to : ChainIndex)
      → Keeps Q (update_proofs w fuel txns from to)
  unfolding update_proofs
  update_proofs-Keeps zero txns from to = search keeps_rules
  update_proofs-Keeps (suc fuel) txns from to =
      search
        (
          keeps_rules,
          next_step-Keeps,
          carry-Keeps,
          λ (ts : List Transaction) (at : ChainIndex). update_proofs-Keeps fuel ts at to,
        )
        depth 20

module _ (p : Platform) (w : World) (tip : ChainIndex) {Q : Db → Type 0} where
  announce_added-Keeps :
      (txns : List Transaction) (r : Result (Unit {0})) → Keeps Q (announce_added p w tip txns r)
  unfolding announce_added
  announce_added-Keeps txns (err x) = Keeps-pure _
  announce_added-Keeps txns (ok u) = search (keeps_rules, broadcast-Keeps)

  pub submit_proved-Keeps :
      (r : List Transaction × Option Error) → Keeps Q (submit_proved p w tip r)
  unfolding submit_proved
  submit_proved-Keeps (txns, some x) = Keeps-pure _
  submit_proved-Keeps (txns, none) = search (keeps_rules, announce_added-Keeps) depth 20
